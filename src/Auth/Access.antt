-- ===== src/Auth/Access.antt =====
-- store.go: which tokens and roles are accepted.
use mathlib.Core.List.{lookup}
use nrdot_host.Common.{
  ℕ, ◌≡◌, ◌≤◌, ◌↔◌, inl, inr, sym, subst, Bool, true, false, Option, none, some, Option-cases,
  Bool-cases, arith, Str, Str-discrete,
}
use nrdot_host.Auth.{
  TokenInfo, TokenStore, Reply, info_of, error_of, validate_entry, validate_token,
  has_required_role, role_level, adequate,
}

-- A token is in force at a time: it is not revoked, and the time is not after its expiry.
abbrev pub InForce : ℕ → TokenInfo → Type 0
InForce now info = (info.revoked ≡ false) × (now ≤ info.expires_at)

abbrev pub accepted : Reply → Bool
accepted (info_of info) = true
accepted (error_of e) = false

entry-InForce :
    (token : Str) (now used : ℕ) (s : TokenStore) (info : TokenInfo)
    → accepted (validate_entry token now used s (some info)).1 ≡ true
    → InForce now info
entry-InForce token now used s info h = elim (Bool-cases info.revoked) [
  | inl r ↦ absurd (ground (arith, r, h))
  | inr r ↦ (r, ground (arith, r, h))
]

entry_accepted :
    (token : Str) (now used : ℕ) (s : TokenStore) (info : TokenInfo)
    → InForce now info
    → accepted (validate_entry token now used s (some info)).1 ≡ true
entry_accepted token now used s info (r, f) = ground (arith, r, f)

-- A token is accepted exactly if the store has it, not revoked, and the time is not after its expiry.
pub validate_token_accepts :
    (token : Str) (now used : ℕ) (s : TokenStore)
    → (accepted (validate_token token now used s).1 ≡ true)
      ↔ ((info : TokenInfo) × (lookup Str-discrete token s.tokens ≡ some info) × InForce now info)
unfolding validate_token
validate_token_accepts token now used s = elim (Option-cases (lookup Str-discrete token s.tokens)) [
  | inl e ↦ (
    λ h.
        absurd
          (ground (arith, subst (λ o. accepted (validate_entry token now used s o).1 ≡ true) e h)),
    λ (info, q, f). absurd (ground (arith, e, q)),
  )
  | inr (info, e) ↦ (
    λ h. (
      info,
      e,
      entry-InForce token now used s info
          (subst (λ o. accepted (validate_entry token now used s o).1 ≡ true) e h),
    ),
    λ (i, q, f).
        subst (λ o. accepted (validate_entry token now used s o).1 ≡ true) (sym q)
          (entry_accepted token now used s i f),
  )
]

-- A role that has the rights of a second one, which has those of a third, has those of the third.
pub has_required_role_trans :
    (a b c : Str)
    → has_required_role a b ≡ true
    → has_required_role b c ≡ true
    → has_required_role a c ≡ true
unfolding has_required_role
has_required_role_trans a b c h k = trans (role_level a) (role_level b) (role_level c) h k
  where
    trans : (x y z : Option ℕ) → adequate x y ≡ true → adequate y z ≡ true → adequate x z ≡ true
    trans none y z h k = h
    trans (some x) none z h k = ground arith
    trans (some x) (some y) none h k = k
    trans (some x) (some y) (some z) h k = ground arith
