-- ===== src/Examples/Storage.antt =====
-- A filter, the pages of a list, a role as a row, and lists of strings.
use mirror_backend.Common.{
  ℕ, String, true, false, ◌↔◌, Option, none, some, List, [], ◌∷◌, map, take, drop, All, ok, ◌≡◌,
  refl, arith, str_eq, eq_iff,
}
use mirror_backend.Entity.User.{Role}
use mirror_backend.Entity.Role.{update}
use mirror_backend.Entity.Role.Updated.{IsUpdated, update_role-IsUpdated}
use mirror_backend.Examples.Users.{member}
use mirror_backend.Goutil.Sorting.{is_str_arr_equal}
use mirror_backend.Goutil.Sorting.Counts.{SameStrings}
use mirror_backend.Goutil.Sorting.Sorted.{is_str_arr_equal_iff}
use mirror_backend.Handler.Roles.{UpdateRoleRequest, to_new_role}
use mirror_backend.Handler.Roles.Changes.{update-to_new_role}
use mirror_backend.Repo.Filter.{Condition, to_sql_with_args}
use mirror_backend.Repo.Filter.Joined.{joined, dangles, live, to_sql_with_args-joined}
use mirror_backend.Repo.Page.{Query}
use mirror_backend.Repo.Page.Cover.{Finds, first_pages, first_pages-rows}
use mirror_backend.Text.Splitting.{has_char, has_char-Lacks}
use mirror_backend.Repo.Role.{IsCode, to_role, to_role_model, to_role-to_role_model}

abbrev limit_to : {A : Type 0} → Option ℕ → List A → List A
limit_to none xs = xs
limit_to (some l) xs = take l xs

abbrev names : List String
names = "ann" ∷ "bob" ∷ "cy" ∷ "dan" ∷ "eve" ∷ []

abbrev named : Query String String
named = record { count = ok 5; find = λ o l. ok (limit_to l (drop o names)) }

named-Finds : Finds named names
named-Finds = record { counts = refl; from = λ o l. refl }

first_pages-rows_example : first_pages named 2 2 ≡ "ann" ∷ "bob" ∷ "cy" ∷ "dan" ∷ []
first_pages-rows_example =
    first_pages-rows named names 2 2 named-Finds (omega arith) (omega arith) (omega arith)

abbrev condition : String → Option ℕ → Condition ℕ
condition column value = record {
  column = column;
  op = "=";
  value = value;
  next_logical_op = "";
  open_bracket = false;
  close_bracket = false;
}

-- the last condition has no value
abbrev dangling : List (Option (Condition ℕ))
dangling = some (condition "tenant_id" (some 1)) ∷ some (condition "status" none) ∷ []

to_sql_with_args-joined_example :
    to_sql_with_args dangling
    ≡ (joined (dangles dangling) (live dangling), map (λ p. p.1) (live dangling))
to_sql_with_args-joined_example = to_sql_with_args-joined dangling

abbrev admin : Role
admin = record member { actions = "edit_user" ∷ "edit_role" ∷ [] }

is_code : (s : String) → str_eq s "" ≡ false → has_char b',' s ≡ false → IsCode s
is_code s given h = (λ e. let back = (eq_iff s "").1 e in cc, has_char-Lacks b',' s h)

admin-codes : All IsCode admin.actions
unfolding has_char
admin-codes = (is_code "edit_user" refl refl, (is_code "edit_role" refl refl, tt))

to_role-to_role_model_example : to_role (to_role_model admin) ≡ admin
to_role-to_role_model_example = to_role-to_role_model admin admin-codes

abbrev rename : UpdateRoleRequest
rename = record { id = some 2; name = some "Boss"; role_desc = none; actions = [] }

update-to_new_role_example : (update 100 (to_new_role rename) admin).0.actions ≡ []
update-to_new_role_example = update-to_new_role 100 rename admin refl

update_role-IsUpdated_example :
    IsUpdated 100
      (to_new_role rename)
      admin
      (update 100 (to_new_role rename) admin).0
      (update 100 (to_new_role rename) admin).1
update_role-IsUpdated_example = update_role-IsUpdated 100 (to_new_role rename) admin

is_str_arr_equal_iff_example :
    (is_str_arr_equal ("b" ∷ "a" ∷ "b" ∷ []) ("a" ∷ "b" ∷ "b" ∷ []) ≡ true)
    ↔ SameStrings ("b" ∷ "a" ∷ "b" ∷ []) ("a" ∷ "b" ∷ "b" ∷ [])
is_str_arr_equal_iff_example = is_str_arr_equal_iff ("b" ∷ "a" ∷ "b" ∷ []) ("a" ∷ "b" ∷ "b" ∷ [])
