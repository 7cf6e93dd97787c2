-- ===== src/Entity/Ud.antt =====
-- entity/ud_tag.go: the identity of a person (a "ud") and the document ID that stands for it in the
-- search engine. `*string` is an option; `IDType` is a uint32.
pub mod RoundTrip
use Prim.Native.String.{◌++◌}
use mirror_backend.Common.{
  ℕ, suc, ◌+◌, ◌-◌, ◌%◌, ◌^◌, String, Option, none, some, List, [], ◌∷◌, ◌==◌, if◌then◌else◌, ℤ,
  pos, negsuc, Result, ok, err, get_or,
}
use mirror_backend.Text.{split, show, atoi}

abbrev pub doc_id_separator : String
doc_id_separator = ":"

abbrev pub IdType : Type 0
IdType = ℕ

abbrev pub id_type_unknown : IdType
id_type_unknown = 0

abbrev pub id_type_email : IdType
id_type_email = 1

pub record Ud : Type 0 where
  pub id : Option String
  pub id_type : IdType

-- the getters take a pointer, which may be nil
abbrev pub get_id : Option Ud → String
get_id none = ""
get_id (some e) = get_or "" e.id

abbrev pub get_id_type : Option Ud → IdType
get_id_type none = id_type_unknown
get_id_type (some e) = e.id_type

unfoldable pub to_doc_id : Option Ud → String
to_doc_id none = ""
to_doc_id (some e) = get_id (some e) ++ (doc_id_separator ++ show (get_id_type (some e)))

pub data DocError : Type 0 where
  invalid_format : DocError
  invalid_id_type : DocError
  unknown_id_type : DocError

-- the conversion of an int to uint32
abbrev pub to_uint32 : ℤ → ℕ
to_uint32 (pos n) = n % 2 ^ 32
to_uint32 (negsuc n) = 2 ^ 32 - 1 - n % 2 ^ 32

abbrev to_ud_typed : String → IdType → Result DocError Ud
to_ud_typed id id_type =
    if id_type == id_type_unknown
    then err unknown_id_type
    else ok (record { id = some id; id_type = id_type })

abbrev to_ud_parts : List String → Result DocError Ud
to_ud_parts (id ∷ number ∷ []) = elim (atoi number) [
  | none ↦ err invalid_id_type
  | some i ↦ to_ud_typed id (to_uint32 i)
]
to_ud_parts _ = err invalid_format

unfoldable pub to_ud : String → Result DocError Ud
to_ud doc_id = to_ud_parts (split b':' doc_id)
