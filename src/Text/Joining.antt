-- ===== src/Text/Joining.antt =====
-- `strings.Join`, and that `strings.Split` takes it back.
use Prim.Native.Char.{Char, code}
use Prim.Native.String.{◌++◌}
use mirror_backend.Common.{String, List, [], ◌∷◌, All, ◌≡◌, ◌∙◌, refl, ap}
use mirror_backend.Text.{split}
use mirror_backend.Text.Splitting.{Lacks, split-Lacks, split-append}

-- strings.Join(parts, sep), where `sep` is one character
unfoldable pub join : Char → List String → String
join sep [] = ""
join sep (p ∷ []) = p
join sep (p ∷ q ∷ ps) = p ++ (String.◌∷◌ sep (join sep (q ∷ ps)))

pub split-join :
    (sep : Char) (p : String) (ps : List String)
    → All (Lacks (code sep)) (p ∷ ps)
    → split (code sep) (join sep (p ∷ ps)) ≡ p ∷ ps
unfolding join
split-join sep p [] (h, _) = split-Lacks (code sep) p h
split-join sep p (q ∷ ps) (h, hs) =
    split-append (code sep) p sep (join sep (q ∷ ps)) h refl
    ∙ ap (λ l. p ∷ l) (split-join sep q ps hs)
