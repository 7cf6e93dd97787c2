-- ===== src/Handler/Users/Stored.antt =====
-- What `CreateUsers` of handler/user.go has stored where it returns.
use mathlib.Core.List.{Memᴰ}
use mathlib.Core.List.Memᴰ.{head, tail}
use mathlib.Core.Path.{subst, ap₂}
use mirror_backend.Common.{
  ℕ, Option, none, some, List, [], ◌∷◌, ◌++◌, map, All, Each, each_nil, each_cons, ok, ◌≡◌, ◌⊎◌,
  inl, inr, eq_of_some, get_or, refl, sym, ap, ◌∙◌,
}
use mirror_backend.Action.{
  Action, Failure, panicked, or_fail, ◌>>◌, >>=-eq-ok, pure-eq-ok, or_fail-eq-ok,
}
use mirror_backend.Entity.Activation.{Activation}
use mirror_backend.Entity.User.{User}
use mirror_backend.Handler.Users.{Services}
use mirror_backend.Handler.Users.Creation.{
  CreateUserRequest, Made, make_user, make_users, activation_for, activations, insert_all,
  unless_empty, first_id, rest_of,
}

-- The rows are inserted, if there are any.
abbrev pub IsInserted :
    {W E A : Type 0} → (List A → Action W (Failure E) Unit) → List A → W → W → Type 0
IsInserted insert rows v v' = (rows ≡ []) × (v ≡ v') ⊎ (insert rows v ≡ (ok tt, v'))

-- The user is the one that was inserted, but for its ID and its role.
abbrev pub IsUserOf : User → Made → Type 0
IsUserOf u m = m.user ≡ record u { id = m.user.id; role = m.user.role }

-- the users' IDs are the first of the IDs, in order
pub record IsNumbered (ids : List ℕ) (ms : List Made) : Type 0 where
  pub given : List ℕ
  pub rest : List ℕ
  pub enough : ids ≡ given ++ rest
  pub numbered : map (λ (m : Made). m.user.id) ms ≡ map some given

-- the activation, if there is one, is among them
abbrev pub IsAmong : List Activation → Made → Type 0
IsAmong acts m = (act : Activation) → m.activation ≡ some act → Memᴰ act acts

IsAmong-tail :
    (act : Activation) (acts : List Activation) (ms : List Made)
    → All (IsAmong acts) ms
    → All (IsAmong (act ∷ acts)) ms
IsAmong-tail act acts [] h = tt
IsAmong-tail act acts (m ∷ ms) (h, hs) = (λ a e. tail (h a e), IsAmong-tail act acts ms hs)

activations-IsAmong : (ms : List Made) → All (IsAmong (activations ms)) ms
activations-IsAmong [] = tt
activations-IsAmong (m ∷ ms) = go (m.activation) refl (activations-IsAmong ms)
  where
    go :
        (o : Option Activation)
        → m.activation ≡ o
        → All (IsAmong (activations ms)) ms
        → All
            (IsAmong (elim o [ none ↦ activations ms | some act ↦ act ∷ activations ms ]))
            (m ∷ ms)
    go none h later = (λ a e. absurd cc, later)
    go (some act) h later =
        (λ a e. head (eq_of_some (sym e ∙ h)), IsAmong-tail act (activations ms) ms later)

module _ {W E : Type 0} (services : Services W E) where
  open services use {get_role, insert_users, insert_user_roles, insert_activations}

  -- The users are inserted, and have the IDs that this returns, in order; then the rows of their
  -- roles are inserted, and last, in the state at the end, a list with all the activations.
  pub record IsStored (ms : List Made) (end : W) : Type 0 where
    pub users : List User
    pub ids : List ℕ
    pub acts : List Activation
    pub v0 : W
    pub v1 : W
    pub v2 : W
    pub v3 : W
    pub inserted : insert_users users v0 ≡ (ok ids, v1)
    pub numbered : IsNumbered ids ms
    pub same_users : Each IsUserOf users ms
    pub roles_inserted : IsInserted insert_user_roles (map Made.user_role ms) v2 v3
    pub acts_inserted : IsInserted insert_activations acts v3 end
    pub invitations : All (IsAmong acts) ms

  unless_empty-eq-ok :
      {A : Type 0} (insert : List A → Action W (Failure E) Unit) (rows : List A) (w w' : W)
      → unless_empty services insert rows w ≡ (ok tt, w')
      → IsInserted insert rows w w'
  unless_empty-eq-ok insert [] w w' h = let (_, same) = pure-eq-ok tt w h in inl (refl, same)
  unless_empty-eq-ok insert (a ∷ rows) w w' h = inr h

  make_user-IsUserOf :
      (t : ℕ) (u : User) (r : CreateUserRequest) (id : ℕ) (w w' : W) (m : Made)
      → make_user services t u r id w ≡ (ok m, w')
      → IsUserOf u m × (m.user.id ≡ some id)
  unfolding make_user
  make_user-IsUserOf t u r id w w' m h =
      let (act, w1, _, k1) = >>=-eq-ok (activation_for services u id) _ w h in
      let (role, w2, _, k2) = >>=-eq-ok (get_role t (get_or 0 r.role_id)) _ w1 k1 in
      let (same, _) = pure-eq-ok _ w2 k2 in
      subst (λ m. IsUserOf u m × (m.user.id ≡ some id)) same (refl, refl)

  IsNumbered-cons :
      (ids : List ℕ) (id : ℕ) (m : Made) (ms : List Made)
      → first_id ids ≡ some id
      → m.user.id ≡ some id
      → IsNumbered (rest_of ids) ms
      → IsNumbered ids (m ∷ ms)
  IsNumbered-cons [] id m ms h k later = absurd cc
  IsNumbered-cons (i ∷ ids) id m ms h k later = record {
    given = i ∷ later.given;
    rest = later.rest;
    enough = ap (λ l. i ∷ l) later.enough;
    numbered = ap₂ ◌∷◌ (k ∙ sym h) later.numbered;
  }

  make_users-IsNumbered :
      (t : ℕ) (us : List User) (rs : List CreateUserRequest) (ids : List ℕ) (w w' : W)
      (ms : List Made)
      → make_users services t us rs ids w ≡ (ok ms, w')
      → Each IsUserOf us ms × IsNumbered ids ms
  unfolding make_users
  make_users-IsNumbered t [] rs ids w w' ms h =
      let (same, _) = pure-eq-ok [] w h in
      subst (λ ms. Each IsUserOf [] ms × IsNumbered ids ms) same
        (each_nil, record { given = []; rest = ids; enough = refl; numbered = refl })
  make_users-IsNumbered t (u ∷ us) [] ids w w' ms h = absurd cc
  make_users-IsNumbered t (u ∷ us) (r ∷ rs) ids w w' ms h =
      let (id, w1, h1, k1) = >>=-eq-ok (or_fail panicked (first_id ids)) _ w h in
      let (m, w2, h2, k2) = >>=-eq-ok (make_user services t u r id) _ w1 k1 in
      let (more, w3, h3, k3) = >>=-eq-ok (make_users services t us rs (rest_of ids)) _ w2 k2 in
      let (same, _) = pure-eq-ok _ w3 k3 in
      let (first, _) = or_fail-eq-ok panicked (first_id ids) w h1 in
      let (user, has_id) = make_user-IsUserOf t u r id w1 w2 m h2 in
      let (users, later) = make_users-IsNumbered t us rs (rest_of ids) w2 w3 more h3 in
      subst (λ ms. Each IsUserOf (u ∷ us) ms × IsNumbered ids ms) same
        (each_cons user users, IsNumbered-cons ids id m more first has_id later)

  pub insert_all-IsStored :
      (t : ℕ) (us : List User) (rs : List CreateUserRequest) (w w' : W) (ms : List Made)
      → insert_all services t us rs w ≡ (ok ms, w')
      → IsStored ms w'
  unfolding insert_all
  insert_all-IsStored t us rs w w' ms h =
      let (ids, w1, h1, k1) = >>=-eq-ok (insert_users us) _ w h in
      let (made, w2, h2, k2) = >>=-eq-ok (make_users services t us rs ids) _ w1 k1 in
      let rows = unless_empty services insert_user_roles (map Made.user_role made) in
      let invitations = unless_empty services insert_activations (activations made) in
      let (_, w3, h3, k3) = >>=-eq-ok (rows >> invitations) _ w2 k2 in
      let (_, w4, h4, k4) = >>=-eq-ok rows _ w2 h3 in
      let (same, last) = pure-eq-ok made w3 k3 in
      let (users, numbered) = make_users-IsNumbered t us rs ids w1 w2 made h2 in
      subst (λ ms. IsStored ms w') same
        (record {
          users = us;
          ids = ids;
          acts = activations made;
          v0 = w;
          v1 = w1;
          v2 = w2;
          v3 = w4;
          inserted = h1;
          numbered = numbered;
          same_users = users;
          roles_inserted = unless_empty-eq-ok insert_user_roles (map Made.user_role made) w2 w4 h4;
          acts_inserted =
              subst (λ v. IsInserted insert_activations (activations made) w4 v) last
                (unless_empty-eq-ok insert_activations (activations made) w4 w3 k4);
          invitations = activations-IsAmong made;
        })
