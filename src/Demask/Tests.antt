-- ===== src/Demask/Tests.antt =====
-- The demasker on small inputs, and its theorems at a concrete mapping.
use privy_gate.Common.{
  ◌≡◌, refl, true, List, [], ◌∷◌, some, Text, codes, starts_with, find, text_eq,
}
use privy_gate.Common.Dict
use privy_gate.Common.Dict.{Dict, keys}
use privy_gate.Demask.{
  new_demasker, matches, min_match, longest_prefix, max_prefix, possible_placeholder_prefix_length,
  drain_rest, drain_loop, drain, feed, flush, demask,
}
use privy_gate.Demask.Scan.{first_prefix, scan, is_separate}
use privy_gate.Demask.Stream.{stream_from, join, stream-scan, demask-scan}

program : Unit {0}
unfolding Dict.get text_eq starts_with find matches min_match longest_prefix max_prefix
    possible_placeholder_prefix_length drain_rest drain_loop drain feed flush demask stream_from
    first_prefix scan is_separate
program = tt

abbrev mapping : Dict Text
mapping = (codes "__PII_EMAIL_1__", codes "a@b.ru") ∷ (codes "__PII_PHONE_1__", codes "+7") ∷ []

-- The first placeholder is cut in two, and the text ends like one.
abbrev chunks : List Text
chunks = codes "to __PII_EM" ∷ codes "AIL_1__ or" ∷ codes "__PII_PHONE_1____PI" ∷ []

separate_mapping : is_separate (keys mapping) ≡ true
unfolding program
separate_mapping = refl

restored : stream_from chunks (new_demasker mapping) ≡ some (codes "to a@b.ru or+7__PI")
unfolding program
restored = refl

stream-scan_example :
    stream_from chunks (new_demasker mapping) ≡ some (scan mapping 0 (join chunks))
stream-scan_example = stream-scan mapping separate_mapping chunks

demask-scan_example :
    demask (codes "to __PII_EMAIL_1__") mapping ≡ some (scan mapping 0 (codes "to __PII_EMAIL_1__"))
demask-scan_example = demask-scan mapping separate_mapping (codes "to __PII_EMAIL_1__")

-- The tenth synthetic e-mail holds the first as a prefix, and is restored as the first, with
-- a digit behind it.
abbrev synthetic : Dict Text
synthetic =
    (codes "user@example.com_1", codes "first") ∷ (codes "user@example.com_10", codes "tenth") ∷ []

synthetic_confused : demask (codes "user@example.com_10") synthetic ≡ some (codes "first0")
unfolding program
synthetic_confused = refl
