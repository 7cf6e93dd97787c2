-- ===== src/Entity/User/Creation/Names.antt =====
-- The user name in an email.
use Prim.Native.Char.{Char, code}
use Prim.Native.String.{◌++◌}
use mirror_backend.Common.{
  String, none, some, List, [], ◌∷◌, if◌then◌else◌, str_eq, eq_iff, str_eq_of_ne, ◌≡◌, ◌≢◌, ap, ◌∙◌,
  Bool-cases, inl, inr,
}
use mirror_backend.Text.{split}
use mirror_backend.Text.Splitting.{Lacks, split-Lacks, split-append}
use mirror_backend.Text.Inversion.{split-two}
use mirror_backend.Entity.User.Creation.{extract_username_from_email, first_of_two}

-- a name that is not empty, one "@", and a domain
pub record IsAddress (email name : String) : Type 0 where
  pub at : Char
  pub domain : String
  pub is_at : code at ≡ b'@'
  pub spelled : email ≡ name ++ String.◌∷◌ at domain
  pub not_empty : name ≢ ""
  pub name-Lacks : Lacks b'@' name
  pub domain-Lacks : Lacks b'@' domain

named :
    (name u : String)
    → (if str_eq name "" then none else some name) ≡ some u
    → (name ≡ u) × (name ≢ "")
named name u h = elim (Bool-cases (str_eq name "")) [
  | inl empty ↦ absurd cc
  | inr given ↦ (cc, λ e. let back = (eq_iff name "").1 e in cc)
]

first_of_two-eq-some :
    (ps : List String) (name : String)
    → first_of_two ps ≡ some name
    → (domain : String) × (ps ≡ name ∷ domain ∷ []) × (name ≢ "")
unfolding first_of_two
first_of_two-eq-some [] name h = absurd cc
first_of_two-eq-some (a ∷ []) name h = absurd cc
first_of_two-eq-some (a ∷ b ∷ []) name h =
    let (same, given) = named a name h in (b, cc, λ e. given (same ∙ e))
first_of_two-eq-some (a ∷ b ∷ c ∷ ps) name h = absurd cc

-- The user name of an email is what stands in front of "@": there is a user name exactly if the email
-- has one "@" and something in front of it.
pub extract_username-IsAddress :
    (email name : String)
    → (extract_username_from_email email ≡ some name → IsAddress email name)
      × (IsAddress email name → extract_username_from_email email ≡ some name)
unfolding extract_username_from_email
extract_username-IsAddress email name = (
  λ h.
      let (domain, parts, given) = first_of_two-eq-some (split b'@' email) name h in
      let (at, is_at, spelled, before, behind) = split-two b'@' email name domain parts in
      record {
        at = at;
        domain = domain;
        is_at = is_at;
        spelled = spelled;
        not_empty = given;
        name-Lacks = before;
        domain-Lacks = behind;
      },
  λ a.
      let cut : split b'@' email ≡ name ∷ a.domain ∷ [] =
        ap (split b'@') a.spelled
        ∙ split-append b'@' name a.at a.domain a.name-Lacks a.is_at
        ∙ ap (λ l. name ∷ l) (split-Lacks b'@' a.domain a.domain-Lacks) in
      ap first_of_two cut
      ∙ ap (λ b. if b then none else some name) (str_eq_of_ne name "" a.not_empty),
)
