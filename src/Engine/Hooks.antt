-- ===== src/Engine/Hooks.antt =====
-- nrdot-config-engine/pkg/hooks/hook.go: the hooks are called in the order of their registration.
use nrdot_host.Common.{
  ℕ, List, [], ◌∷◌, Option, none, some, Str, ◌≡◌, ◌↔◌, All, inl, inr, refl, sym, ap, ◌∙◌, arith,
  Option-cases,
}

pub record ConfigChangeEvent : Type 0 where
  pub config_path : Str
  pub old_version : ℕ
  pub new_version : ℕ

-- What a hook answers to an event: `none`, or an error.
pub record Hook : Type 0 where
  pub name : Str
  pub on_config_change : ConfigChangeEvent → Option Str

abbrev note_error : Str → Option Str → List (Str × Str) → List (Str × Str)
note_error name none errs = errs
note_error name (some err) errs = (name, err) ∷ errs

-- The names of the hooks that fail, with their errors.
unfoldable pub collect_errors : List Hook → ConfigChangeEvent → List (Str × Str)
collect_errors [] event = []
collect_errors (hook ∷ rest) event =
    note_error hook.name (hook.on_config_change event) (collect_errors rest event)

abbrev error_of : List (Str × Str) → Option (List (Str × Str))
error_of [] = none
error_of (e ∷ es) = some (e ∷ es)

unfoldable pub notify_all : List Hook → ConfigChangeEvent → Option (List (Str × Str))
unfolding collect_errors
notify_all hooks event = error_of (collect_errors hooks event)

collect_errors-none :
    (hooks : List Hook) (event : ConfigChangeEvent)
    → (collect_errors hooks event ≡ [])
      ↔ All (λ (hook : Hook). hook.on_config_change event ≡ none) hooks
unfolding collect_errors
collect_errors-none [] event = (λ _. tt, λ _. refl)
collect_errors-none (hook ∷ rest) event =
    let ih = collect_errors-none rest event in
    elim (Option-cases (hook.on_config_change event)) [
      | inl e ↦ (
        λ h. (e, ih.0 (sym (ap (λ o. note_error hook.name o (collect_errors rest event)) e) ∙ h)),
        λ h. ap (λ o. note_error hook.name o (collect_errors rest event)) e ∙ ih.1 h.1,
      )
      | inr (err, e) ↦ (
        λ h. absurd (
            ground
              (arith, sym (ap (λ o. note_error hook.name o (collect_errors rest event)) e) ∙ h)),
        λ h. absurd (ground (arith, e, h.0)),
      )
    ]

error_of-none : (es : List (Str × Str)) → error_of es ≡ none → es ≡ []
error_of-none [] h = refl
error_of-none (e ∷ es) h = absurd (ground (arith, h))

-- The notification of the hooks returns no error exactly if each hook, called on the event, returns none.
pub notify_all_succeeds :
    (hooks : List Hook) (event : ConfigChangeEvent)
    → (notify_all hooks event ≡ none)
      ↔ All (λ (hook : Hook). hook.on_config_change event ≡ none) hooks
unfolding notify_all
notify_all_succeeds hooks event = (
  λ h. (collect_errors-none hooks event).0 (error_of-none (collect_errors hooks event) h),
  λ h. ap error_of ((collect_errors-none hooks event).1 h),
)
