-- ===== src/Types/Rules.antt =====
-- The rules by which the layout of a message is proved, for every type of field.
use p.Base.{ℕ, ◌%◌, ◌^◌, ◌<◌, List, [], ◌∷◌, length, All, arith}
use p.Buffer.Fields.{read_onto, read_string, write_list, write_string}
use p.Buffer.RoundTrip.{RoundTrips}
use p.Buffer.FieldLaws.{
  IsText, read_list-RoundTrips, read_onto-Sticky, read_string-RoundTrips, read_string-Sticky,
  sticky_rules, round_trip_rules,
}
use p.Types.Qid.{Qid, decode_qid, encode_qid}
use p.Types.AttrMask.{AttrMask}
use p.Types.SetAttrMask.{SetAttrMask}
use p.Types.AttrMask.Layout.{decode_attr_mask-Sticky, decode_attr_mask-RoundTrips}
use p.Types.SetAttrMask.Layout.{decode_set_attr_mask-Sticky, decode_set_attr_mask-RoundTrips}
use p.Types.Layout.{
  QidFits, decode_qid-Sticky, decode_qid-RoundTrips, decode_fs_stat-Sticky,
  decode_fs_stat-RoundTrips, decode_attr-Sticky, decode_attr-RoundTrips, decode_set_attr-Sticky,
  decode_set_attr-RoundTrips, decode_dirent-Sticky, decode_dirent-RoundTrips,
}
use native.Mathlib.Nat.{mod-eq_of_lt}

-- Any mask fits.
abbrev pub AttrMaskFits : AttrMask → Type 0
AttrMaskFits m = Unit

abbrev pub SetAttrMaskFits : SetAttrMask → Type 0
SetAttrMaskFits m = Unit

pub count_fits : (n : ℕ) → n % 2 ^ 16 < 2 ^ 16
count_fits n = omega arith

each_text :
    (xs : List (List ℕ)) → All IsText xs → All (λ x. RoundTrips (write_string x) read_string x) xs
each_text [] h = tt
each_text (x ∷ xs) (hx, hxs) = (read_string-RoundTrips x hx, each_text xs hxs)

pub names-RoundTrips :
    (xs : List (List ℕ))
    → length xs < 2 ^ 16
    → All IsText xs
    → RoundTrips (write_list write_string xs) (read_onto read_string (length xs % 2 ^ 16) []) xs
unfolding read_onto
names-RoundTrips xs short h =
    rw (mod-eq_of_lt short)
      (read_list-RoundTrips write_string read_string xs read_string-Sticky (each_text xs h))

each_qid : (xs : List Qid) → All QidFits xs → All (λ x. RoundTrips (encode_qid x) decode_qid x) xs
each_qid [] h = tt
each_qid (x ∷ xs) (hx, hxs) = (decode_qid-RoundTrips x hx, each_qid xs hxs)

pub qids-RoundTrips :
    (xs : List Qid)
    → length xs < 2 ^ 16
    → All QidFits xs
    → RoundTrips (write_list encode_qid xs) (read_onto decode_qid (length xs % 2 ^ 16) []) xs
unfolding read_onto
qids-RoundTrips xs short h =
    rw (mod-eq_of_lt short)
      (read_list-RoundTrips encode_qid decode_qid xs decode_qid-Sticky (each_qid xs h))

pub ruleset sticky_laws = (
  sticky_rules, read_onto-Sticky, decode_qid-Sticky, decode_fs_stat-Sticky, decode_attr-Sticky,
  decode_set_attr-Sticky, decode_attr_mask-Sticky, decode_set_attr_mask-Sticky,
  decode_dirent-Sticky,
)

pub ruleset round_trip_laws = (
  round_trip_rules, sticky_laws, count_fits, names-RoundTrips, qids-RoundTrips,
  decode_qid-RoundTrips, decode_fs_stat-RoundTrips, decode_attr-RoundTrips,
  decode_set_attr-RoundTrips, decode_attr_mask-RoundTrips, decode_set_attr_mask-RoundTrips,
  decode_dirent-RoundTrips,
)
