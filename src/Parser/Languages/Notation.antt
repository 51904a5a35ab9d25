-- ===== src/Parser/Languages/Notation.antt =====
-- Lists of texts, written as literals.
use Prim.Native.String.{String}
use agent_coderag.Prelude.{List, [], ◌∷◌, Text, text}

abbrev pub texts : List String → List Text
texts [] = []
texts (s ∷ ss) = text s ∷ texts ss

abbrev pub text_pairs : List (String × String) → List (Text × Text)
text_pairs [] = []
text_pairs ((s, t) ∷ ps) = (text s, text t) ∷ text_pairs ps
