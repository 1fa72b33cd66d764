-- ===== src/Examples/Frames.antt =====
-- A frame of recording/store.rs at two small blocks, whose header is the only one that has a JSON form.
use vim_config.Prelude.{
  ℕ, ◌<◌, ◌≡◌, refl, List, [], ◌∷◌, ◌++◌, length, map, Option, none, some, arith, ℕ_discrete,
}
use vim_config.Outcome.{ok}
use vim_config.Store.{FrameHeader, FrameInfo}
use vim_config.Store.Hex.{hex}
use vim_config.Store.Endian.{to_le}
use vim_config.Store.Header.{brotli}
use vim_config.Store.Payload.{block_ref}
use vim_config.Store.Filename.{frame_filename}
use vim_config.Store.Frame.{
  Codec, IsCodec, seal_frame, verify_frame, frame_header, frame_prefix_of, frame_file, frame_size,
}
use vim_config.Store.Frame.Verified.{verify_frame-seal_frame}
use vim_config.Examples.Archive.{toy_digest, two_blocks, packed, pack_two}

abbrev pub compressed : List ℕ
compressed = 1 ∷ packed

abbrev pub two_header : FrameHeader
two_header = record {
  version = 1;
  codec = brotli;
  quality = 5;
  window_log = 20;
  first_block = 0;
  last_block = 1;
  payload_bytes = length packed;
  compressed_bytes = length compressed;
  payload_sha256 = hex (toy_digest packed);
  blocks = map block_ref two_blocks;
}

pub header_discrete : Discrete FrameHeader
header_discrete = hlevel ℕ_discrete

pub encode : (h : FrameHeader) → Dec (h ≡ two_header) → Option (List ℕ)
encode h (yes same_header) = some (7 ∷ [])
encode h (no other) = none

abbrev pub compress : List ℕ → Option (List ℕ)
compress bytes = some (1 ∷ bytes)

pub decompress : List ℕ → Option (List ℕ × ℕ)
decompress [] = none
decompress (b ∷ bytes) = some (bytes, 0)

abbrev pub toy_codec : Codec
toy_codec = record {
  sha256 = toy_digest;
  compress = compress;
  decompress = decompress;
  encode_header = λ h. encode h (header_discrete h two_header);
  decode_header = λ bytes. some two_header;
  encode_manifest = λ frames. some (length frames ∷ []);
}

encode_back :
    (h : FrameHeader) (d : Dec (h ≡ two_header)) (out : List ℕ)
    → encode h d ≡ some out
    → (0 < length out) × (some two_header ≡ some h)
unfolding encode
encode_back h (yes e) out made = ground arith
encode_back h (no other) out made = cc

pub toy_IsCodec : IsCodec toy_codec
unfolding decompress
toy_IsCodec = record {
  digest = λ bs. refl;
  digest_bytes = λ bs. omega arith;
  compressed = λ bs out e. ground arith;
  header = λ h out e. encode_back h (header_discrete h two_header) out e;
}

two_file : List ℕ
two_file = frame_file toy_codec (frame_prefix_of (7 ∷ [])) compressed

encode_two : (d : Dec (two_header ≡ two_header)) → encode two_header d ≡ some (7 ∷ [])
unfolding encode
encode_two (yes e) = refl
encode_two (no other) = absurd (other refl)

abbrev two_info : FrameInfo
two_info = record {
  name = frame_filename 0 1;
  first = 0;
  last = 1;
  count = 2;
  payload_bytes = 10;
  compressed_bytes = 11;
  file_bytes = 52;
  payload_sha256 = hex (toy_digest packed);
  file_sha256 = hex (toy_digest (frame_prefix_of (7 ∷ []) ++ compressed));
}

header_of_two : frame_header toy_codec two_blocks 0 1 packed compressed ≡ two_header
unfolding frame_header
header_of_two = refl

size_of_two : frame_size (length (frame_prefix_of (7 ∷ []))) 11 ≡ ok 52
unfolding frame_size frame_prefix_of to_le
size_of_two = refl

seal_two : seal_frame toy_codec two_blocks 0 1 ≡ ok (two_file, two_header, two_info)
unfolding seal_frame two_file
seal_two =
    rw (pack_two, header_of_two, encode_two (header_discrete two_header two_header), size_of_two)

verify_frame-seal_frame_example :
    verify_frame toy_codec (frame_filename 0 1) two_file
    ≡ ok ((5 ∷ 6 ∷ []) ∷ (7 ∷ []) ∷ [], two_info)
verify_frame-seal_frame_example =
    verify_frame-seal_frame toy_codec toy_IsCodec two_blocks 0 1 (refl, (refl, tt))
      (refl, (refl, tt)) refl (omega arith) seal_two
