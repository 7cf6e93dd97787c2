-- ===== src/Entity/Role/Updated.antt =====
-- What `Update` of entity/role.go writes to a role.
use mirror_backend.Common.{
  ℕ, String, Bool, true, false, Option, none, some, List, if◌then◌else◌, get_or, ◌≡◌, ◌≢◌, ◌⊎◌, ◌↔◌,
  inl, inr, refl, arith, eq_iff, Bool-cases,
}
use mirror_backend.Entity.User.{Role, ActionCode}
use mirror_backend.Entity.Role.{NewRole, update}
use mirror_backend.Goutil.Sorting.{is_str_arr_equal}
use mirror_backend.Goutil.Sorting.Counts.{SameStrings, is_str_arr_equal-SameStrings}
use mirror_backend.Goutil.Sorting.Sorted.{is_str_arr_equal_iff}

-- a text is asked for, and it is another one than the role has
abbrev pub IsOther : Option String → Option String → Type 0
IsOther none old = ⊥
IsOther (some s) old = get_or "" old ≢ s

-- actions are asked for, and they are not those that the role has, each as often
abbrev pub HasOthers : Option (List ActionCode) → List ActionCode → Type 0
HasOthers none old = ⊥
HasOthers (some l) old = ¬ SameStrings old l

-- what the code compares
abbrev AreUnequal : Option (List ActionCode) → List ActionCode → Type 0
AreUnequal none old = ⊥
AreUnequal (some l) old = is_str_arr_equal old l ≡ false

AreUnequal-HasOthers :
    (o : Option (List ActionCode)) (old : List ActionCode) → AreUnequal o old ↔ HasOthers o old
AreUnequal-HasOthers none old = (λ h. h, λ h. h)
AreUnequal-HasOthers (some l) old = (
  λ h same. cc (h, (is_str_arr_equal_iff old l).1 same),
  λ h. elim (Bool-cases (is_str_arr_equal old l)) [
    | inl equal ↦ absurd (h ((is_str_arr_equal_iff old l).0 equal))
    | inr unequal ↦ unequal
  ],
)

instead : {A B C D : Type 0} → C ↔ D → (A ⊎ B ⊎ C) ↔ (A ⊎ B ⊎ D)
instead h = (
  λ s. elim s [ inl a ↦ inl a | inr (inl b) ↦ inr (inl b) | inr (inr c) ↦ inr (inr (h.0 c)) ],
  λ s. elim s [ inl a ↦ inl a | inr (inl b) ↦ inr (inl b) | inr (inr d) ↦ inr (inr (h.1 d)) ],
)

-- how `Update` relates the role before and after
pub record IsUpdated (now : ℕ) (r : NewRole) (e e' : Role) (changed : Bool) : Type 0 where
  pub new_name : (s : String) → r.name ≡ some s → get_or "" e'.name ≡ s
  pub kept_name : r.name ≡ none → e'.name ≡ e.name
  pub new_role_desc : (s : String) → r.role_desc ≡ some s → get_or "" e'.role_desc ≡ s
  pub kept_role_desc : r.role_desc ≡ none → e'.role_desc ≡ e.role_desc
  pub new_actions :
      (l : List ActionCode)
      → r.actions ≡ some l
      → (e'.actions ≡ l) ⊎ ((e'.actions ≡ e.actions) × SameStrings e.actions l)
  pub kept_actions : r.actions ≡ none → e'.actions ≡ e.actions
  pub kept_id : e'.id ≡ e.id
  pub kept_tenant : e'.tenant_id ≡ e.tenant_id
  pub kept_status : e'.status ≡ e.status
  pub kept_create_time : e'.create_time ≡ e.create_time
  pub has_changed :
      (changed ≡ true)
      ↔ (IsOther r.name e.name ⊎ IsOther r.role_desc e.role_desc ⊎ HasOthers r.actions e.actions)
  pub time : e'.update_time ≡ (if changed then some now else e.update_time)
  pub unchanged : changed ≡ false → e' ≡ e

update-has_changed :
    (now : ℕ) (r : NewRole) (e : Role) (name role_desc : Option String)
    (actions : Option (List ActionCode))
    → r.name ≡ name
    → r.role_desc ≡ role_desc
    → r.actions ≡ actions
    → ((update now r e).1 ≡ true)
      ↔ (IsOther name e.name ⊎ IsOther role_desc e.role_desc ⊎ AreUnequal actions e.actions)
unfolding update
update-has_changed now r e none none none h k l = ground arith
update-has_changed now r e none none (some a) h k l = ground arith
update-has_changed now r e none (some d) none h k l =
    ground (arith, eq_iff (get_or "" e.role_desc) d)
update-has_changed now r e none (some d) (some a) h k l =
    ground (arith, eq_iff (get_or "" e.role_desc) d)
update-has_changed now r e (some s) none none h k l = ground (arith, eq_iff (get_or "" e.name) s)
update-has_changed now r e (some s) none (some a) h k l =
    ground (arith, eq_iff (get_or "" e.name) s)
update-has_changed now r e (some s) (some d) none h k l =
    ground (arith, eq_iff (get_or "" e.name) s, eq_iff (get_or "" e.role_desc) d)
update-has_changed now r e (some s) (some d) (some a) h k l =
    ground (arith, eq_iff (get_or "" e.name) s, eq_iff (get_or "" e.role_desc) d)

update-actions :
    (now : ℕ) (r : NewRole) (e : Role) (l : List ActionCode)
    → r.actions ≡ some l
    → ((update now r e).0.actions ≡ l)
      ⊎ (((update now r e).0.actions ≡ e.actions) × SameStrings e.actions l)
unfolding update
update-actions now r e l h = elim (Bool-cases (is_str_arr_equal e.actions l)) [
  | inl same ↦ inr (ground arith, is_str_arr_equal-SameStrings e.actions l same)
  | inr differ ↦ inl (ground arith)
]

-- After `Update` the role has the name and the description that were asked for, and the actions that
-- were asked for or, where it keeps its own, the same actions, each as often. What was not asked
-- for, its ID, tenant, status and creation time are as before. `Update` tells of a change exactly if
-- a name or a description that was asked for is not the role's, or the actions that were asked for
-- are not the role's, each as often. The update time is `now` where it tells of a change; where it
-- tells of none, the whole role is as before.
pub update_role-IsUpdated :
    (now : ℕ) (r : NewRole) (e : Role) → IsUpdated now r e (update now r e).0 (update now r e).1
unfolding update
update_role-IsUpdated now r e = record {
  new_name = λ s h. ground (arith, eq_iff (get_or "" e.name) s);
  kept_name = λ h. ground arith;
  new_role_desc = λ s h. ground (arith, eq_iff (get_or "" e.role_desc) s);
  kept_role_desc = λ h. ground arith;
  new_actions = update-actions now r e;
  kept_actions = λ h. ground arith;
  kept_id = ground arith;
  kept_tenant = ground arith;
  kept_status = ground arith;
  kept_create_time = ground arith;
  has_changed =
      let (to, from) = update-has_changed now r e r.name r.role_desc r.actions refl refl refl in
      let (there, back) = instead (AreUnequal-HasOthers r.actions e.actions) in
      (λ h. there (to h), λ h. from (back h));
  time = ground arith;
  unchanged = λ h. ground arith;
}
