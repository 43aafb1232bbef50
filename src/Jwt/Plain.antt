-- ===== src/Jwt/Plain.antt =====
-- jwt.go: claims that JSON keeps as they are.
use nrdot_host.Common.{
  ℕ, ◌%◌, ◌<◌, ◌≡◌, refl, [], ◌∷◌, true, All, if_both, ltb, Option, none, some, Str, str_eq, codes,
  arith,
}
use nrdot_host.Jwt.{JwtClaims, new_numeric_date, get_permissions_for_role}

-- ASCII texts, and times that are whole seconds.
abbrev pub IsAscii : Str → Type 0
IsAscii s = All (λ c. ltb c 128 ≡ true) s

abbrev pub IsWhole : Option ℕ → Type 0
IsWhole none = Unit
IsWhole (some t) = t % 1000000000 ≡ 0

abbrev pub Before : Option ℕ → ℕ → Type 0
Before none now = Unit
Before (some at) now = now < at

-- Claims that JSON keeps as they are.
abbrev pub Plain : JwtClaims → Type 0
Plain c =
    All IsAscii (c.issuer ∷ c.subject ∷ c.id ∷ c.role ∷ [])
    × All IsAscii c.permissions
    × IsWhole c.expires_at
    × IsWhole (some c.issued_at)

pub whole : (t : ℕ) → IsWhole (some (new_numeric_date t))
whole t = omega arith

read-IsAscii : IsAscii (codes "read")
read-IsAscii = (refl, (refl, (refl, (refl, tt))))

write-IsAscii : IsAscii (codes "write")
write-IsAscii = (refl, (refl, (refl, (refl, (refl, tt)))))

reload-IsAscii : IsAscii (codes "reload")
reload-IsAscii = (refl, (refl, (refl, (refl, (refl, (refl, tt))))))

pub permissions-IsAscii : (role : Str) → All IsAscii (get_permissions_for_role role)
unfolding get_permissions_for_role
permissions-IsAscii role =
    if_both (All IsAscii) (str_eq role (codes "admin"))
      (codes "read" ∷ codes "write" ∷ codes "delete" ∷ codes "reload" ∷ []) _
      (
        read-IsAscii,
        (write-IsAscii, ((refl, (refl, (refl, (refl, (refl, (refl, tt)))))), (reload-IsAscii, tt))),
      )
      (if_both (All IsAscii) (str_eq role (codes "operator"))
        (codes "read" ∷ codes "write" ∷ codes "reload" ∷ []) _
        (read-IsAscii, (write-IsAscii, (reload-IsAscii, tt)))
        (if_both (All IsAscii) (str_eq role (codes "viewer")) (codes "read" ∷ []) []
          (read-IsAscii, tt) tt))
