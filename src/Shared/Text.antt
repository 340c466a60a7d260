-- ===== src/Shared/Text.antt =====
-- Texts as lists of bytes, with what shared/PatternGen.hpp uses of std::string and of streams.
use Prim.Native.Char.{code}
use Prim.Native.String.{String}
use ssdiq.Prelude.{
  ℕ, zero, suc, Bool, true, false, ◌&&◌, ◌||◌, List, [], ◌∷◌, ◌==◌, leb, if◌then◌else◌,
}

abbrev pub codes : String → List ℕ
codes String.[] = []
codes (String.◌∷◌ c s) = code c ∷ codes s

unfoldable pub starts_with : List ℕ → List ℕ → Bool
starts_with [] s = true
starts_with (k ∷ ks) [] = false
starts_with (k ∷ ks) (c ∷ s) = (k == c) && starts_with ks s

-- `s.contains(key)`.
unfoldable pub contains_text : List ℕ → List ℕ → Bool
contains_text [] key = starts_with key []
contains_text (c ∷ s) key = starts_with key (c ∷ s) || contains_text s key

unfoldable pub text_eq : List ℕ → List ℕ → Bool
text_eq [] [] = true
text_eq [] (d ∷ t) = false
text_eq (c ∷ s) [] = false
text_eq (c ∷ s) (d ∷ t) = (c == d) && text_eq s t

-- `s.substr(n)` for n up to the length of `s`.
unfoldable pub drop_text : ℕ → List ℕ → List ℕ
drop_text zero s = s
drop_text (suc n) [] = []
drop_text (suc n) (c ∷ s) = drop_text n s

-- `isspace` in the classic locale.
abbrev pub is_space : ℕ → Bool
is_space c = (c == 32) || (leb 9 c && leb c 13)

abbrev pub put_word : List ℕ → List (List ℕ) → List (List ℕ)
put_word [] words = words
put_word (c ∷ w) words = (c ∷ w) ∷ words

-- The word that `s` starts with, and the words after it, as `ss >> value` reads them one by one.
unfoldable pub split_words : List ℕ → List ℕ × List (List ℕ)
split_words [] = ([], [])
split_words (c ∷ s) =
    let (w, words) = split_words s in if is_space c then ([], put_word w words) else (c ∷ w, words)

abbrev pub words_of : List ℕ → List (List ℕ)
words_of s = let (w, words) = split_words s in put_word w words
