-- ===== src/Entity/Ud/RoundTrip.antt =====
-- Document IDs read back.
use text.Mathlib.TextLemmas.{nil-append, cons-append}
use mirror_backend.Common.{
  ◌^◌, ◌<◌, ◌≤◌, String, some, List, [], ◌∷◌, ◌≡◌, ◌≢◌, ◌∙◌, refl, ap, arith, true, inr, ok, err,
  length,
}
use mirror_backend.Text.{split, show}
use mirror_backend.Text.Decimal.{atoi-show}
use mirror_backend.Text.Splitting.{
  Lacks, has_char, split-Lacks, split-append, split-has_char, show-Lacks,
}
use mirror_backend.Entity.Ud.{
  IdType, id_type_unknown, Ud, to_doc_id, invalid_format, to_ud_parts, to_ud,
}

abbrev ud : String → IdType → Ud
ud id id_type = record { id = some id; id_type = id_type }

split-doc_id :
    (id : String) (t : IdType)
    → Lacks b':' id
    → split b':' (to_doc_id (some (ud id t))) ≡ id ∷ show t ∷ []
unfolding to_doc_id
split-doc_id id t h =
    rw (cons-append, nil-append)
      (split-append b':' id ":" (show t) h refl
        ∙ ap (λ l. id ∷ l) (split-Lacks b':' (show t) (show-Lacks b':' t (inr (omega arith)))))

-- A document ID reads back as the ud that it was made of, if the ud's id holds no colon and its
-- type is a known uint32.
pub to_ud-to_doc_id :
    (id : String) (t : IdType)
    → Lacks b':' id
    → t ≢ id_type_unknown
    → t < 2 ^ 32
    → to_ud (to_doc_id (some (record { id = some id; id_type = t })))
      ≡ ok (record { id = some id; id_type = t })
unfolding to_ud
to_ud-to_doc_id id t h known bound =
    rw (split-doc_id id t h, to_ud_parts, atoi-show t (omega arith)) (ground arith)

to_ud_parts_long : (ps : List String) → 3 ≤ length ps → to_ud_parts ps ≡ err invalid_format
to_ud_parts_long [] h = absurd (omega arith)
to_ud_parts_long (a ∷ []) h = absurd (omega arith)
to_ud_parts_long (a ∷ b ∷ []) h = absurd (omega arith)
to_ud_parts_long (a ∷ b ∷ c ∷ ps) h = refl

-- The document ID of a ud whose id holds a colon never reads back, whatever the type.
pub to_ud-to_doc_id_colon :
    (id : String) (t : IdType)
    → has_char b':' id ≡ true
    → to_ud (to_doc_id (some (record { id = some id; id_type = t }))) ≡ err invalid_format
unfolding to_ud to_doc_id
to_ud-to_doc_id_colon id t h =
    rw (cons-append, nil-append) (to_ud_parts_long _ (split-has_char b':' id ":" (show t) h refl))
