-- ===== src/Handler/Roles/Changes.antt =====
-- What `UpdateRoles` of handler/role.go writes.
use text.Mathlib.TextPositions.{eq_refl}
use mirror_backend.Common.{
  ℕ, ◌+◌, String, Bool, true, false, ◌||◌, some, List, [], ◌∷◌, ◌==◌, if◌then◌else◌, get_or, any,
  All, All-append, ◌≡◌, refl, ap, ◌∙◌, arith, Bool-cases, inl, inr,
}
use mirror_backend.Entity.User.{Role}
use mirror_backend.Entity.Role.{NewRole, get_id, update}
use mirror_backend.Entity.Role.Updated.{update_role-IsUpdated}
use mirror_backend.Goutil.{remove_str_duplicates}
use mirror_backend.Goutil.Sorting.Counts.{SameStrings, count}
use mirror_backend.Handler.Roles.{
  UpdateRoleRequest, to_new_role, apply_updates, repeated, updated_roles,
}

same_as_none : (l : List String) → SameStrings l [] → l ≡ []
same_as_none [] h = refl
same_as_none (s ∷ l) h =
    let once : count s (s ∷ l) ≡ 1 + count s l = rw (eq_refl s) refl in
    absurd (omega (arith, once, h s))

-- An update of a role that gives no actions takes all its actions from the role.
pub update-to_new_role :
    (now : ℕ) (req : UpdateRoleRequest) (e : Role)
    → req.actions ≡ []
    → (update now (to_new_role req) e).0.actions ≡ []
unfolding to_new_role remove_str_duplicates
update-to_new_role now req e h =
    let updated = update_role-IsUpdated now (to_new_role req) e in
    elim (updated.new_actions [] (ap (λ l. some (remove_str_duplicates l)) h)) [
      | inl emptied ↦ emptied
      | inr (kept, same) ↦ kept ∙ same_as_none e.actions same
    ]

-- one of the updates names the role
abbrev pub IsNamed : List NewRole → Role → Type 0
IsNamed us role = any (λ u. get_id role == get_or 0 (NewRole.id u)) us ≡ true

-- one turn of the loop over the updates
abbrev step_of : ℕ → NewRole → Role → Role × Bool
step_of now u role = if get_id role == get_or 0 u.id then update now u role else (role, false)

step_of-id : (now : ℕ) (u : NewRole) (role : Role) → (step_of now u role).0.id ≡ role.id
step_of-id now u role = elim (Bool-cases (get_id role == get_or 0 u.id)) [
  | inl named ↦ rw named ((update_role-IsUpdated now u role).kept_id)
  | inr other ↦ rw other refl
]

apply_updates-id :
    (now : ℕ) (us : List NewRole) (role : Role) → (apply_updates now us role).0.id ≡ role.id
unfolding apply_updates
apply_updates-id now [] role = refl
apply_updates-id now (u ∷ us) role =
    apply_updates-id now us (step_of now u role).0 ∙ step_of-id now u role

neither : (a b : Bool) → (a || b) ≡ false → (a ≡ false) × (b ≡ false)
neither true b h = absurd cc
neither false b h = (refl, h)

apply_updates-unnamed :
    (now : ℕ) (us : List NewRole) (role : Role)
    → any (λ u. get_id role == get_or 0 (NewRole.id u)) us ≡ false
    → apply_updates now us role ≡ (role, [])
unfolding apply_updates
apply_updates-unnamed now [] role h = refl
apply_updates-unnamed now (u ∷ us) role h =
    let (other, others) = neither (get_id role == get_or 0 u.id) _ h in
    rw (other, apply_updates-unnamed now us role others) refl

All-repeated : {A B : Type 0} (P : A → Type 0) (a : A) (bs : List B) → P a → All P (repeated a bs)
All-repeated P a [] h = tt
All-repeated P a (b ∷ bs) h = (h, All-repeated P a bs h)

-- Every role that is written is named by an update: roles that are read but not named are left
-- alone.
pub updated_roles-IsNamed :
    (now : ℕ) (us : List NewRole) (roles : List Role)
    → All (IsNamed us) (updated_roles now us roles)
unfolding updated_roles
updated_roles-IsNamed now us [] = tt
updated_roles-IsNamed now us (role ∷ roles) =
    let rest = updated_roles-IsNamed now us roles in
    elim (Bool-cases (any (λ u. get_id role == get_or 0 (NewRole.id u)) us)) [
      | inl named ↦
          let same = ap (get_or 0) (apply_updates-id now us role) in
          let kept = ap (λ n. any (λ u. n == get_or 0 (NewRole.id u)) us) same ∙ named in
          All-append (IsNamed us) _ _
            (All-repeated (IsNamed us) (apply_updates now us role).0 (apply_updates now us role).1
              kept)
            rest
      | inr unnamed ↦
          let none_changed =
            ap (λ r. repeated r.0 r.1) (apply_updates-unnamed now us role unnamed) in
          rw none_changed rest
    ]
