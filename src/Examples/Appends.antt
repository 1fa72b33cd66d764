-- ===== src/Examples/Appends.antt =====
-- `append` of recording/store.rs on a new archive, with calls of the system that succeed.
use vim_config.Prelude.{
  ℕ, ◌^◌, ◌≡◌, ◌⊎◌, refl, List, [], ◌∷◌, ◌++◌, map, none, some, arith, false, true, dec_lt,
  replicate, ◌==◌, if◌then◌else◌,
}
use vim_config.Prelude.Order.{lt_wf}
use vim_config.Outcome.{ok, err, storage}
use vim_config.Store.{StoredBlock, default_options, journal_magic}
use vim_config.Store.Sequence.{done}
use vim_config.Store.Journal.Recovered.{journal_of, records_of}
use vim_config.Store.Action.{
  fine, fails, Script, ArchiveWriter, ◌>>=◌, gets, lift, pure, call, modify,
}
use vim_config.Store.Publish.{ensure_capacity_at}
use vim_config.Store.Endian.{to_le}
use vim_config.Store.Uvarint.{varint_len, len_loop}
use vim_config.Store.Journal.{journal_record}
use vim_config.Store.Publish.Held.{Held}
use vim_config.Store.Writer.{
  append, must_flush_first, journal_lines, must_flush_now, current_payload_len, file_bytes,
}
use vim_config.Store.Writer.Flushed.{IsOpen}
use vim_config.Store.Writer.Failed.{append-Safe}
use vim_config.Store.Writer.Session.{new_archive, Session, opened, accepted, Session-Recovers}
use vim_config.Store.Writer.Refines.{contents, append-IsOpen}
use vim_config.Store.Writer.Durable.{Recovers, append-Recovers}
use vim_config.Examples.Archive.{block_a}
use vim_config.Examples.Frames.{toy_codec, toy_IsCodec}

abbrev all_fine : Script
all_fine n = fine (2 ^ 60)

abbrev new_writer : ArchiveWriter
new_writer = record {
  options = default_options;
  frames = [];
  active = [];
  active_wire_bytes = 0;
  usage_bytes = 0;
  next_id = 0;
  poisoned = false;
  journal = none;
  files = [];
  manifest = none;
  calls = 0;
}

IsOpen-new_writer : IsOpen toy_codec new_writer []
IsOpen-new_writer = record {
  ready = record {
    end = 0;
    archive = record { covers = done 0; held = refl };
    numbered = tt;
    stored = tt;
    next_id = refl;
    word = omega arith;
    wire = refl;
    journal = refl;
    alive = refl;
    frame_bytes = omega arith;
  };
  few = omega arith;
  small = omega arith;
}

abbrev one_block : ArchiveWriter
one_block = record {
  options = default_options;
  frames = [];
  active = block_a ∷ [];
  active_wire_bytes = 3;
  usage_bytes = 86;
  next_id = 1;
  poisoned = false;
  journal = some (journal_of toy_codec.sha256 (block_a ∷ []));
  files = [];
  manifest = none;
  calls = 5;
}

append_a : append toy_codec all_fine (5 ∷ 6 ∷ []) new_writer ≡ (ok tt, one_block)
unfolding append ◌>>=◌ gets lift must_flush_first pure ensure_capacity_at journal_lines
    journal_record to_le call modify varint_len len_loop lt_wf dec_lt must_flush_now
    current_payload_len file_bytes records_of
append_a = refl

append-IsOpen_example :
    (cs : List (List ℕ)) × IsOpen toy_codec one_block cs
    × (contents one_block cs ≡ (5 ∷ 6 ∷ []) ∷ [])
append-IsOpen_example =
    append-IsOpen toy_codec all_fine toy_IsCodec (5 ∷ 6 ∷ []) new_writer [] IsOpen-new_writer
      append_a

append-Recovers_example :
    (published : List (List ℕ)) × (journaled : List StoredBlock) × Held toy_codec one_block.files
      one_block.frames published
    × Recovers toy_codec one_block.journal journaled
    × (published ++ map (λ b. b.bytes) journaled ≡ (5 ∷ 6 ∷ []) ∷ [])
append-Recovers_example =
    append-Recovers toy_codec toy_IsCodec all_fine (5 ∷ 6 ∷ []) new_writer [] IsOpen-new_writer
      append_a

-- The journal's file is made, and the writing fails behind 10 bytes.
abbrev write_fails : Script
write_fails n = if n == 2 then fails 10 else fine (2 ^ 60)

abbrev torn_writer : ArchiveWriter
torn_writer = record {
  options = default_options;
  frames = [];
  active = [];
  active_wire_bytes = 0;
  usage_bytes = 0;
  next_id = 0;
  poisoned = true;
  journal = some (journal_magic ++ replicate 6 0);
  files = [];
  manifest = none;
  calls = 3;
}

append_torn : append toy_codec write_fails (5 ∷ 6 ∷ []) new_writer ≡ (err storage, torn_writer)
unfolding append ◌>>=◌ gets lift must_flush_first pure ensure_capacity_at journal_lines
    journal_record to_le call modify varint_len len_loop lt_wf dec_lt must_flush_now
    current_payload_len file_bytes records_of
append_torn = refl

append-Safe_example :
    (torn_writer.poisoned ≡ true)
    ⊎ ((cs : List (List ℕ)) × IsOpen toy_codec torn_writer cs × (contents torn_writer cs ≡ []))
append-Safe_example =
    append-Safe toy_codec toy_IsCodec write_fails (5 ∷ 6 ∷ []) new_writer [] IsOpen-new_writer
      append_torn

one_block-Session : Session toy_codec all_fine one_block ((5 ∷ 6 ∷ []) ∷ [])
unfolding new_archive
one_block-Session =
    accepted (5 ∷ 6 ∷ []) new_writer one_block [] (opened default_options 0 none (omega arith))
      append_a

Session-Recovers_example :
    (one_block.poisoned ≡ true)
    ⊎ ((published : List (List ℕ)) × (journaled : List StoredBlock) × Held toy_codec one_block.files
          one_block.frames published
        × Recovers toy_codec one_block.journal journaled
        × (published ++ map (λ b. b.bytes) journaled ≡ (5 ∷ 6 ∷ []) ∷ []))
Session-Recovers_example = Session-Recovers toy_codec toy_IsCodec all_fine one_block-Session
