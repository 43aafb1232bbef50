-- ===== src/Auth/Roles.antt =====
-- store.go: the rights of the roles.
use nrdot_host.Common.{
  ℕ, ◌≡◌, ◌≤◌, inl, inr, refl, true, Option, none, some, arith, if◌then◌else◌, Str, Str-discrete,
  str_eq, codes, ◌⊎◌, ite, leb→le, false,
}
use nrdot_host.Auth.{has_required_role, role_level, adequate}

-- The rights of the roles: an admin has those of all three, an operator those of a viewer and its own.
abbrev pub Covers : Str → Str → Type 0
Covers role required =
    ((role ≡ codes "admin")
      × ((required ≡ codes "viewer") ⊎ (required ≡ codes "operator") ⊎ (required ≡ codes "admin")))
    ⊎ ((role ≡ codes "operator") × ((required ≡ codes "viewer") ⊎ (required ≡ codes "operator")))
    ⊎ ((role ≡ codes "viewer") × (required ≡ codes "viewer"))

-- The role with a level.
abbrev OfLevel : ℕ → Str → Type 0
OfLevel n role =
    ((n ≡ 1) × (role ≡ codes "viewer"))
    ⊎ ((n ≡ 2) × (role ≡ codes "operator"))
    ⊎ ((n ≡ 3) × (role ≡ codes "admin"))

abbrev Leveled : Str → Option ℕ → Type 0
Leveled role none = Unit
Leveled role (some n) = OfLevel n role

role_level-Leveled : (role : Str) → Leveled role (role_level role)
unfolding str_eq
role_level-Leveled role =
    elim (Str-discrete role (codes "viewer"))
      as (λ d. Leveled role (
        if ite d true false
        then some 1
        else (if str_eq role (codes "operator")
            then some 2
            else (if str_eq role (codes "admin") then some 3 else none)))) [
              | yes p ↦ inl (refl, p)
              | no _ ↦
                  elim (Str-discrete role (codes "operator"))
                    as (λ d. Leveled role (
                      if ite d true false
                      then some 2
                      else (if str_eq role (codes "admin") then some 3 else none))) [
                        | yes p ↦ inr (inl (refl, p))
                        | no _ ↦
                            elim (Str-discrete role (codes "admin"))
                              as (λ d. Leveled role (if ite d true false then some 3 else none)) [
                                | yes p ↦ inr (inr (refl, p))
                                | no _ ↦ tt
                              ]
                      ]
            ]

levels-Covers :
    (n k : ℕ) (role required : Str)
    → OfLevel n role
    → OfLevel k required
    → k ≤ n
    → Covers role required
levels-Covers n k role required (inl (e, p)) (inl (f, q)) h = inr (inr (p, q))
levels-Covers n k role required (inl (e, p)) (inr (inl (f, q))) h = absurd (omega (arith, e, f, h))
levels-Covers n k role required (inl (e, p)) (inr (inr (f, q))) h = absurd (omega (arith, e, f, h))
levels-Covers n k role required (inr (inl (e, p))) (inl (f, q)) h = inr (inl (p, inl q))
levels-Covers n k role required (inr (inl (e, p))) (inr (inl (f, q))) h = inr (inl (p, inr q))
levels-Covers n k role required (inr (inl (e, p))) (inr (inr (f, q))) h =
    absurd (omega (arith, e, f, h))
levels-Covers n k role required (inr (inr (e, p))) (inl (f, q)) h = inl (p, inl q)
levels-Covers n k role required (inr (inr (e, p))) (inr (inl (f, q))) h = inl (p, inr (inl q))
levels-Covers n k role required (inr (inr (e, p))) (inr (inr (f, q))) h = inl (p, inr (inr q))

adequate-Covers :
    (role required : Str) (o r : Option ℕ)
    → Leveled role o
    → Leveled required r
    → adequate o r ≡ true
    → Covers role required
adequate-Covers role required none r h k e = absurd (ground (arith, e))
adequate-Covers role required (some n) none h k e = absurd (ground (arith, e))
adequate-Covers role required (some n) (some m) h k e =
    levels-Covers n m role required h k (leb→le m n e)

pub has_required_role-Covers :
    (role required : Str) → has_required_role role required ≡ true → Covers role required
unfolding has_required_role
has_required_role-Covers role required h =
    adequate-Covers role required (role_level role) (role_level required) (role_level-Leveled role)
      (role_level-Leveled required) h
