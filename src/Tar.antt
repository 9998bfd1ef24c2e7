-- ===== src/Tar.antt =====
-- file/tar-header-block.cc: the 512 bytes that stand before each file of a TAR archive. The block is
-- a list of bytes; a field is a range of it.
pub mod Octal
pub mod Range
pub mod Header
pub mod Tests
use polar_express.Base.{
  ℕ, zero, suc, ◌+◌, ◌-◌, ◌*◌, ◌/◌, ◌%◌, ◌≡◌, Bool, true, false, Option, none, some, List, [], ◌∷◌,
  ◌++◌, Bytes, ltb, leb, ◌==◌, if◌then◌else◌, length, take, drop, replicate, ◌&&◌,
}

abbrev pub tar_header_block_length : ℕ
tar_header_block_length = 512

-- A member of the packed struct TarHeaderFields: where it begins, and how long it is.
pub record Field : Type 0 where
  pub offset : ℕ
  pub width : ℕ

abbrev pub filename_field : Field
filename_field = record { offset = 0; width = 100 }

abbrev pub mode_field : Field
mode_field = record { offset = 100; width = 8 }

abbrev pub owner_uid_field : Field
owner_uid_field = record { offset = 108; width = 8 }

abbrev pub owner_gid_field : Field
owner_gid_field = record { offset = 116; width = 8 }

abbrev pub size_field : Field
size_field = record { offset = 124; width = 12 }

abbrev pub modification_time_field : Field
modification_time_field = record { offset = 136; width = 12 }

abbrev pub checksum_field : Field
checksum_field = record { offset = 148; width = 8 }

abbrev pub link_indicator_field : Field
link_indicator_field = record { offset = 156; width = 1 }

-- Writing over a range; what would go past the end is not in the block.
unfoldable pub overwrite : Bytes → Bytes → Bytes
overwrite [] xs = xs
overwrite (y ∷ ys) [] = []
overwrite (y ∷ ys) (x ∷ xs) = y ∷ overwrite ys xs

unfoldable pub write_at : ℕ → Bytes → Bytes → Bytes
unfolding overwrite
write_at zero ys xs = overwrite ys xs
write_at (suc n) ys [] = []
write_at (suc n) ys (x ∷ xs) = x ∷ write_at n ys xs

abbrev pub read_field : Field → Bytes → Bytes
read_field d xs = take d.width (drop d.offset xs)

abbrev pub write_field : Field → Bytes → Bytes → Bytes
write_field d ys xs = write_at d.offset ys xs

-- The octal digits of a number, most significant first, with leading zeros up to a width; `none` if
-- it has more digits than that, where the assertion on the length fails.
unfoldable pub octal_digits : ℕ → ℕ → Bytes
octal_digits zero v = []
octal_digits (suc w) v = octal_digits w (v / 8) ++ (v % 8 + b'0') ∷ []

unfoldable pub fits : ℕ → ℕ → Bool
fits zero v = v == 0
fits (suc w) v = fits w (v / 8)

-- WriteIntegerAsOctalWithLeadingZeros: the digits, a nul, and the characters behind the nul.
unfoldable pub write_octal : ℕ → ℕ → Bytes → Option Bytes
unfolding octal_digits fits
write_octal width v post =
    let w = width - 1 - length post in
    if fits w v then some (octal_digits w v ++ 0 ∷ post) else none

-- ReadOctalWithLeadingZerosAsInteger, for a field that begins with a digit, as those that the
-- setters write do: digits up to the first other character.
unfoldable pub is_octal : ℕ → Bool
is_octal c = leb b'0' c && leb c b'7'

unfoldable pub read_octal_from : ℕ → Bytes → ℕ
unfolding is_octal
read_octal_from acc [] = acc
read_octal_from acc (c ∷ cs) =
    let rest = read_octal_from (acc * 8 + (c - b'0')) cs in if is_octal c then rest else acc

unfoldable pub read_octal : Bytes → ℕ
unfolding read_octal_from
read_octal xs = read_octal_from 0 xs

-- TarHeaderBlock's constructor: zero bytes, and the indicator of a normal file.
unfoldable pub new_header : Bytes
unfolding write_at
new_header = write_field link_indicator_field (b'0' ∷ []) (replicate tar_header_block_length 0)

-- strncpy: up to a nul or the field's end, then nuls.
unfoldable pub strncpy : ℕ → Bytes → Bytes
strncpy zero xs = []
strncpy (suc n) [] = 0 ∷ strncpy n []
strncpy (suc n) (x ∷ xs) = x ∷ strncpy n (if x == 0 then [] else xs)

unfoldable pub set_filename : Bytes → Bytes → Bytes
unfolding strncpy write_at
set_filename name xs = write_field filename_field (strncpy filename_field.width name) xs

-- set_mode, set_owner_uid, set_owner_gid, set_size and set_modification_time, by their field.
abbrev pub put_field : Field → Option Bytes → Bytes → Option Bytes
put_field d none xs = none
put_field d (some ys) xs = some (write_field d ys xs)

unfoldable pub set_number : Field → ℕ → Bytes → Option Bytes
unfolding write_octal write_at
set_number d v xs = put_field d (write_octal d.width v []) xs

unfoldable pub number : Field → Bytes → ℕ
unfolding read_octal
number d xs = read_octal (read_field d xs)

unfoldable pub set_checksum : ℕ → Bytes → Option Bytes
unfolding write_octal write_at
set_checksum v xs = put_field checksum_field (write_octal checksum_field.width v (b' ' ∷ [])) xs

unfoldable pub sum_bytes : Bytes → ℕ
sum_bytes [] = 0
sum_bytes (x ∷ xs) = x + sum_bytes xs

-- The block with spaces in place of its checksum.
unfoldable pub blank_checksum : Bytes → Bytes
unfolding write_at
blank_checksum xs = write_field checksum_field (replicate checksum_field.width b' ') xs

unfoldable pub compute_and_set_checksum : Bytes → Option Bytes
unfolding blank_checksum sum_bytes set_checksum
compute_and_set_checksum xs =
    let ys = blank_checksum xs in set_checksum (sum_bytes (take tar_header_block_length ys)) ys
