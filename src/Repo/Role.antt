-- ===== src/Repo/Role.antt =====
-- The rows of roles in repo/role.go: `ToRole` and `ToRoleModel`, by which a role is stored.
use Prim.Native.Char.{Char}
use Prim.Native.String.{◌++◌}
use text.Mathlib.TextLemmas.{nil-append, cons-append}
use mirror_backend.Common.{
  ℕ, String, Option, some, List, [], ◌∷◌, if◌then◌else◌, get_or, str_eq, All, ◌≡◌, ◌≢◌, refl, ap,
  ◌∙◌, str_eq_of_ne,
}
use mirror_backend.Entity.User.{Role as RoleEntity, ActionCode}
use mirror_backend.Text.{split}
use mirror_backend.Text.Joining.{join, split-join}
use mirror_backend.Text.Splitting.{Lacks}

pub record Role : Type 0 where
  pub id : Option ℕ
  pub name : Option String
  pub role_desc : Option String
  pub status : Option ℕ
  pub actions : Option String
  pub tenant_id : Option ℕ
  pub create_time : Option ℕ
  pub update_time : Option ℕ

abbrev actions_of : String → List ActionCode
actions_of actions = if str_eq actions "" then [] else split b',' actions

unfoldable pub to_role : Role → RoleEntity
unfolding split
to_role role = record {
  id = role.id;
  name = role.name;
  role_desc = role.role_desc;
  status = get_or 0 role.status;
  actions = actions_of (get_or "" role.actions);
  tenant_id = role.tenant_id;
  create_time = role.create_time;
  update_time = role.update_time;
}

unfoldable pub to_role_model : RoleEntity → Role
unfolding join
to_role_model role = record {
  id = role.id;
  name = role.name;
  role_desc = role.role_desc;
  status = some role.status;
  actions = some (join "," role.actions);
  tenant_id = role.tenant_id;
  create_time = role.create_time;
  update_time = role.update_time;
}

-- a code that can be stored beside others
abbrev pub IsCode : ActionCode → Type 0
IsCode action = (action ≢ "") × Lacks b',' action

append_not_empty : (a : String) (c : Char) (b : String) → (a ++ String.◌∷◌ c b) ≢ ""
append_not_empty String.[] c b h = let e = nil-append (String.◌∷◌ c b) in cc
append_not_empty (String.◌∷◌ d a) c b h = let e = cons-append d a (String.◌∷◌ c b) in cc

join_not_empty :
    (a : ActionCode) (actions : List ActionCode)
    → All IsCode (a ∷ actions)
    → join "," (a ∷ actions) ≢ ""
unfolding join
join_not_empty a [] h = h.0.0
join_not_empty a (b ∷ actions) h = append_not_empty a "," (join "," (b ∷ actions))

All-Lacks : (actions : List ActionCode) → All IsCode actions → All (Lacks b',') actions
All-Lacks [] h = tt
All-Lacks (a ∷ actions) h = (h.0.1, All-Lacks actions h.1)

actions_of-join :
    (actions : List ActionCode) → All IsCode actions → actions_of (join "," actions) ≡ actions
unfolding join
actions_of-join [] h = refl
actions_of-join (a ∷ actions) h =
    ap (λ b. if b then [] else split b',' (join "," (a ∷ actions)))
      (str_eq_of_ne (join "," (a ∷ actions)) "" (join_not_empty a actions h))
    ∙ split-join "," a actions (All-Lacks (a ∷ actions) h)

-- A role that is stored and read again is as before, if no code of its actions is empty or holds a
-- comma.
pub to_role-to_role_model :
    (role : RoleEntity) → All IsCode role.actions → to_role (to_role_model role) ≡ role
unfolding to_role to_role_model
to_role-to_role_model role h =
    ap (λ actions. record role { actions = actions }) (actions_of-join role.actions h)
