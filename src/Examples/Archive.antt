-- ===== src/Examples/Archive.antt =====
-- The theorems about recording/store.rs at small data: a digest that keeps the length of the bytes, a
-- compressor that puts one byte in front, and one header.
use vim_config.Prelude.{
  ℕ, ◌+◌, ◌%◌, ◌≤◌, ◌≡◌, ◌⊎◌, ◌↔◌, refl, List, [], ◌∷◌, ◌++◌, length, take, map, replicate, Option,
  none, some, All, arith,
}
use vim_config.Prelude.{◌-◌, dec_lt}
use vim_config.Prelude.Order.{lt_wf}
use vim_config.Outcome.{ok}
use vim_config.Wire.Varint.{IsByte}
use vim_config.Wire.Cursor.{Wrote}
use vim_config.Store.{StoredBlock, FrameInfo, max_blocks_per_frame, max_archive_frames}
use vim_config.Store.Hex.{hex, decode_hex_32, hex_nibble, decode_pairs}
use vim_config.Store.Hex.RoundTrip.{decode_hex_32-hex, hex-decode_hex_32}
use vim_config.Store.Filename.{frame_filename, parse_frame_filename}
use vim_config.Store.Filename.RoundTrip.{parse_frame_filename-frame_filename}
use vim_config.Store.Uvarint.{write_uvarint, varint_len, read_uvarint, write_loop, len_loop}
use vim_config.Store.Uvarint.RoundTrip.{read_uvarint-write_uvarint}
use vim_config.Store.Payload.{
  pack_pcr_frame, pack_pcr_payload, pack_blocks, unpack_payload, block_ref,
}
use vim_config.Store.Payload.RoundTrip.{unpack_payload-pack_pcr_frame}
use vim_config.Store.Journal.{read_journal_prefix, journal_record, journal_body, journal_prefix}
use vim_config.Store.Endian.{to_le}
use vim_config.Store.Journal.Reads.{IsStored, record_of, length-record_of}
use vim_config.Store.Journal.Recovered.{
  Follows, Journaled, records_of, journal_of, read_journal_prefix-journal, read_journal_prefix-cut,
}
use vim_config.Store.Journal.Total.{read_journal_prefix_total}
use vim_config.Store.Sequence.{validate_frame_sequence, Covers, validate_frame_sequence_iff}

abbrev pub toy_digest : List ℕ → List ℕ
toy_digest bs = (length bs % 256) ∷ replicate 31 0

length-toy_digest : (bs : List ℕ) → length (toy_digest bs) ≡ 32
length-toy_digest bs = refl

abbrev pub block_a : StoredBlock
block_a = record { id = 0; bytes = 5 ∷ 6 ∷ []; sha256 = toy_digest (5 ∷ 6 ∷ []) }

abbrev pub block_b : StoredBlock
block_b = record { id = 1; bytes = 7 ∷ []; sha256 = toy_digest (7 ∷ []) }

abbrev pub two_blocks : List StoredBlock
two_blocks = block_a ∷ block_b ∷ []

IsStored-block_a : IsStored toy_digest block_a
IsStored-block_a = record {
  hashed = refl;
  filled = omega arith;
  bounded = omega arith;
  numbered = omega arith;
}

IsStored-block_b : IsStored toy_digest block_b
IsStored-block_b = record {
  hashed = refl;
  filled = omega arith;
  bounded = omega arith;
  numbered = omega arith;
}

journal_size : length (journal_of toy_digest two_blocks) ≡ 167
unfolding records_of journal_record journal_body journal_prefix to_le
journal_size = refl

two_blocks-Journaled : Journaled toy_digest two_blocks
two_blocks-Journaled = (
  (IsStored-block_a, (IsStored-block_b, tt)),
  (refl, tt),
  omega arith,
  omega (arith, journal_size),
)

read_journal_prefix-journal_example :
    read_journal_prefix toy_digest (journal_of toy_digest two_blocks) ≡ ok (two_blocks, none)
read_journal_prefix-journal_example =
    read_journal_prefix-journal toy_digest length-toy_digest two_blocks two_blocks-Journaled

abbrev pub block_c : StoredBlock
block_c = record { id = 2; bytes = 8 ∷ []; sha256 = toy_digest (8 ∷ []) }

IsStored-block_c : IsStored toy_digest block_c
IsStored-block_c = record {
  hashed = refl;
  filled = omega arith;
  bounded = omega arith;
  numbered = omega arith;
}

read_journal_prefix-cut_example :
    read_journal_prefix toy_digest
      (journal_of toy_digest two_blocks ++ take 60 (record_of toy_digest block_c))
    ≡ ok (two_blocks, some (length (journal_of toy_digest two_blocks)))
read_journal_prefix-cut_example =
    read_journal_prefix-cut toy_digest length-toy_digest two_blocks block_c 60 two_blocks-Journaled
      IsStored-block_c (omega arith)
      (omega (arith, length-record_of toy_digest length-toy_digest block_c IsStored-block_c))

abbrev junk : List ℕ
junk = b'H' ∷ b'J' ∷ b'R' ∷ b'1' ∷ 9 ∷ []

read_journal_prefix_total_example :
    (valid : List StoredBlock) × (malformed_at : Option ℕ) × (read_journal_prefix toy_digest junk
      ≡ ok (valid, malformed_at))
    × All (IsStored toy_digest) valid
    × Follows none valid
    × (length valid ≤ max_blocks_per_frame)
    × ((valid ≡ []) ⊎ ((tail : List ℕ) × (junk ≡ journal_of toy_digest valid ++ tail)))
read_journal_prefix_total_example = read_journal_prefix_total toy_digest junk (omega arith)

abbrev pub packed : List ℕ
packed = b'P' ∷ b'C' ∷ b'R' ∷ b'1' ∷ 2 ∷ 2 ∷ 5 ∷ 6 ∷ 1 ∷ 7 ∷ []

pub pack_two : pack_pcr_frame two_blocks ≡ ok packed
unfolding pack_pcr_frame pack_pcr_payload pack_blocks write_uvarint varint_len write_loop lt_wf
    dec_lt len_loop
pack_two = refl

unpack_payload-pack_pcr_frame_example :
    unpack_payload toy_digest (map block_ref two_blocks) packed ≡ ok ((5 ∷ 6 ∷ []) ∷ (7 ∷ []) ∷ [])
unpack_payload-pack_pcr_frame_example =
    unpack_payload-pack_pcr_frame toy_digest two_blocks (refl, (refl, tt)) pack_two

read_uvarint-write_uvarint_example : Wrote packed (write_uvarint 300 packed) read_uvarint 300
read_uvarint-write_uvarint_example = read_uvarint-write_uvarint 300 packed (omega arith)

abbrev digest_a : List ℕ
digest_a = toy_digest (5 ∷ 6 ∷ [])

decode_hex_32-hex_example : decode_hex_32 (hex digest_a) ≡ ok digest_a
decode_hex_32-hex_example = decode_hex_32-hex digest_a refl (omega arith)

abbrev text_a : List ℕ
text_a = b'0' ∷ b'2' ∷ replicate 62 b'0'

text_a_decoded : decode_hex_32 text_a ≡ ok digest_a
unfolding decode_hex_32 hex_nibble decode_pairs
text_a_decoded = refl

hex-decode_hex_32_example : (hex digest_a ≡ text_a) × All IsByte digest_a × (length digest_a ≡ 32)
hex-decode_hex_32_example = hex-decode_hex_32 text_a text_a_decoded

parse_frame_filename-frame_filename_example :
    parse_frame_filename (frame_filename 0 16383) ≡ ok (0, 16383)
parse_frame_filename-frame_filename_example =
    parse_frame_filename-frame_filename 0 16383 (omega arith) (omega arith)

abbrev frame_of : ℕ → ℕ → FrameInfo
frame_of first last = record {
  name = [];
  first = first;
  last = last;
  count = last + 1 - first;
  payload_bytes = 10;
  compressed_bytes = 11;
  file_bytes = 60;
  payload_sha256 = [];
  file_sha256 = [];
}

validate_frame_sequence_iff_example :
    (validate_frame_sequence (frame_of 0 4 ∷ frame_of 5 5 ∷ []) ≡ ok tt) ↔ (
      (length (frame_of 0 4 ∷ frame_of 5 5 ∷ []) ≤ max_archive_frames)
      × (end : ℕ) × Covers 0 (frame_of 0 4 ∷ frame_of 5 5 ∷ []) end)
validate_frame_sequence_iff_example = validate_frame_sequence_iff (frame_of 0 4 ∷ frame_of 5 5 ∷ [])
