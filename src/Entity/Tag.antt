-- ===== src/Entity/Tag.antt =====
-- entity/tag.go: tags and the values that they accept. `TagValueType` and `TagStatus` are uint32s.
use mirror_backend.Common.{
  ℕ, String, Bool, true, false, not, ◌&&◌, ◌||◌, Option, none, some, List, [], ◌∷◌, ◌==◌, ltb,
  if◌then◌else◌, length, get_or, ℤ, Result, ok, err,
}
use mirror_backend.Text.{atoi}
use mirror_backend.Value.{Floats}
use mirror_backend.Goutil.{contains_str}

abbrev pub TagValueType : Type 0
TagValueType = ℕ

abbrev pub tag_value_type_unknown : TagValueType
tag_value_type_unknown = 0

abbrev pub tag_value_type_int : TagValueType
tag_value_type_int = 1

abbrev pub tag_value_type_str : TagValueType
tag_value_type_str = 2

abbrev pub tag_value_type_float : TagValueType
tag_value_type_float = 3

-- the keys of the map `TagValueTypes`
abbrev tag_value_types : List TagValueType
tag_value_types = tag_value_type_int ∷ tag_value_type_str ∷ tag_value_type_float ∷ []

-- true where the error is nil
pub check_tag_value_type : ℕ → Bool
check_tag_value_type value = has tag_value_types
  where
    has : List ℕ → Bool
    has [] = false
    has (k ∷ ks) = k == value || has ks

abbrev pub TagStatus : Type 0
TagStatus = ℕ

abbrev pub tag_status_normal : TagStatus
tag_status_normal = 1

-- the struct has no fields
pub data TagExtInfo : Type 0 where
  tag_ext_info : TagExtInfo

pub record Tag : Type 0 where
  pub id : Option ℕ
  pub name : Option String
  pub tag_desc : Option String
  pub enum : Option (List String)
  pub value_type : TagValueType
  pub status : TagStatus
  pub ext_info : Option TagExtInfo
  pub creator_id : Option ℕ
  pub tenant_id : Option ℕ
  pub create_time : Option ℕ
  pub update_time : Option ℕ

abbrev pub get_id : Option Tag → ℕ
get_id none = 0
get_id (some e) = get_or 0 e.id

abbrev pub get_value_type : Option Tag → TagValueType
get_value_type none = tag_value_type_unknown
get_value_type (some e) = e.value_type

abbrev pub get_enum : Option Tag → List String
get_enum none = []
get_enum (some e) = get_or [] e.enum

unfoldable pub in_enum : Option Tag → String → Bool
in_enum e tag_value =
    if ltb 0 (length (get_enum e)) && not (contains_str (get_enum e) tag_value) then false else true

-- what `FormatTagValue` returns as an `interface{}`
pub data TagValue (F : Type 0) : Type 0 where
  str : String → TagValue F
  int : ℤ → TagValue F
  float_frac : F → TagValue F

pub data FormatError : Type 0 where
  syntax : FormatError
  unsupported_type : FormatError

abbrev or_syntax : {A B : Type 0} → (A → B) → Option A → Result FormatError B
or_syntax f none = err syntax
or_syntax f (some a) = ok (f a)

abbrev accepted : {A : Type 0} → Result FormatError A → Bool
accepted (ok a) = true
accepted (err e) = false

module _ (floats : Floats) where
  open floats use {Float, parse_float}

  unfoldable pub format_tag_value : Option Tag → String → Result FormatError (TagValue Float)
  format_tag_value e v =
      if get_value_type e == tag_value_type_str
      then ok (str v)
      else if get_value_type e == tag_value_type_int
      then or_syntax int (atoi v)
      else if get_value_type e == tag_value_type_float
      then or_syntax float_frac (parse_float v)
      else err unsupported_type

  unfoldable pub is_valid_tag_value : Option Tag → String → Bool
  unfolding format_tag_value
  is_valid_tag_value e v = accepted (format_tag_value e v)

pub can_distinct_tag_values : Option Tag → Bool
can_distinct_tag_values e = get_value_type e == tag_value_type_str
