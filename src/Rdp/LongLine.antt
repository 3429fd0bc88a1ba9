-- ===== src/Rdp/LongLine.antt =====
-- A line that the scanner cannot hold ends the reading of an RDP file without an error.
use home_rdp_gateway.Base.{
  ◌≡◌, refl, ap, ◌≤◌, true, false, ltb, List, [], ◌∷◌, ◌++◌, length, if◌then◌else◌, arith,
}
use home_rdp_gateway.Base.Texts.{Text}
use home_rdp_gateway.Utf.Utf8.{encode_runes}
use home_rdp_gateway.Rdp.Parser.{
  max_scan_token_size, split_lines, scan, drop_cr, parse_lines, unmarshal,
}
use home_rdp_gateway.Rdp.Lines.{lacks, split_lines-lacks}

-- Lines with a line feed behind each, in front of a text.
abbrev pub lines_before : List Text → Text → Text
lines_before [] s = s
lines_before (l ∷ ls) s = l ++ b'\n' ∷ lines_before ls s

abbrev pub AllLines : List Text → Type 0
AllLines [] = Unit
AllLines (l ∷ ls) = (lacks b'\n' l ≡ true) × AllLines ls

scan_too_long :
    (long : Text) (rest : List Text)
    → max_scan_token_size ≤ length (encode_runes long)
    → scan (long ∷ rest) ≡ []
unfolding scan
scan_too_long long rest h =
    let large : ltb (length (encode_runes long)) max_scan_token_size ≡ false = ground arith in
    rw large refl

scan_cut :
    (front : List Text) (long rest : Text)
    → AllLines front
    → lacks b'\n' long ≡ true
    → max_scan_token_size ≤ length (encode_runes long)
    → scan (split_lines (lines_before front (long ++ b'\n' ∷ rest)))
      ≡ scan (split_lines (lines_before front []))
unfolding scan split_lines
scan_cut [] long rest a h l =
    rw (split_lines-lacks long rest h) (scan_too_long long (split_lines rest) l)
scan_cut (f ∷ front) long rest (g, a) h l =
    rw (split_lines-lacks f (lines_before front (long ++ b'\n' ∷ rest)) g) (
      rw (split_lines-lacks f (lines_before front []) g) (
        ap (λ ls. if ltb (length (encode_runes f)) max_scan_token_size then drop_cr f ∷ ls else [])
          (scan_cut front long rest a h l)))

-- Of a file with a line of 65536 bytes or more Unmarshal gives what the lines in front of it give: that line and
-- whatever follows it are left out, and there is no error on their account.
pub unmarshal_long_line :
    (front : List Text) (long rest : Text)
    → AllLines front
    → lacks b'\n' long ≡ true
    → max_scan_token_size ≤ length (encode_runes long)
    → unmarshal (lines_before front (long ++ b'\n' ∷ rest)) ≡ unmarshal (lines_before front [])
unfolding unmarshal
unmarshal_long_line front long rest a h l =
    ap (λ ls. parse_lines ls []) (scan_cut front long rest a h l)
