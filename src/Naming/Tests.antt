-- ===== src/Naming/Tests.antt =====
-- Labels at concrete inputs.
use memcove.Common.{◌≡◌, refl, true, Text, codes}
use memcove.Common.Result.{ok, err, memcove_error}
use memcove.Unicode.{strip_by, is_word}
use memcove.Unicode.Ascii.{ascii}
use memcove.Naming.{full_label, validate_label}
use memcove.Naming.Labels.{validate_label-IsLabel}

abbrev padded : Text
padded = codes " Orders_2024\n"

padded_accepted : validate_label ascii padded ≡ ok (codes "orders_2024")
unfolding validate_label memcove.Naming.label_matches full_label strip_by memcove.Unicode.rstrip_by
    memcove.Unicode.lstrip_by memcove.Unicode.ascii_space memcove.Unicode.ascii_lower
    memcove.Common.all is_word
padded_accepted = refl

digit_first : validate_label ascii (codes "2024_orders") ≡ err memcove_error
unfolding validate_label memcove.Naming.label_matches full_label strip_by memcove.Unicode.rstrip_by
    memcove.Unicode.lstrip_by memcove.Unicode.ascii_space memcove.Unicode.ascii_lower
    memcove.Unicode.ends_newline
digit_first = refl

validate_label-IsLabel_example : full_label (codes "orders_2024") ≡ true
validate_label-IsLabel_example =
    validate_label-IsLabel ascii padded (codes "orders_2024") padded_accepted
