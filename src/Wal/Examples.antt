-- ===== src/Wal/Examples.antt =====
-- The theorems on internal/wal/wal.go at work, with a codec that knows one command.
use my_etcd.Base.{◌+◌, ◌<◌, ◌≡◌, ◌≢◌, refl, List, [], ◌∷◌, arith}
use my_etcd.Base.Words.{ℤ, pos}
use my_etcd.Base.Result.{ok, err}
use my_etcd.Wal.Frames.{WalRecord, WalError, write_failed, out_of_fuel, seal, read_segment}
use my_etcd.Wal.Log.{
  Wal, works, torn, append, new_wal, read_all, set_term, truncate, create_new_segment,
  load_latest_segment, write_record, write_frame,
}
use my_etcd.Wal.Recovery.{Reach, started, one_appended, term_set, truncated, restarted, commands}
use my_etcd.Wal.History.{read_all-Reach, append-torn, new_record}
use my_etcd.Wal.Ending.{read_segment-ends}
use my_etcd.Wal.Sample.{sample, one_command, Is, one_command-IsCodec}

abbrev first_log : Wal
first_log = new_wal (pos 1000) []

abbrev one_log : Wal
one_log = (append (one_command sample) (pos 5) works sample first_log).0

first_append : (append (one_command sample) (pos 5) works sample first_log).1 ≡ ok tt
unfolding append new_wal load_latest_segment create_new_segment seal write_record write_frame
first_append = refl

room : first_log.index + 1 < 18446744073709551616
unfolding new_wal load_latest_segment create_new_segment
room = omega arith

one_reached : Reach (one_command sample) (Is sample) one_log (sample ∷ [])
one_reached = one_appended (pos 5) sample (started (pos 1000)) refl room first_append

-- A term of its own, a truncation and a restart behind the one command.
abbrev later_log : Wal
later_log = new_wal (pos 10) (truncate 9 (set_term 3 one_log).0).0.dir

one_log_index : one_log.index ≡ 1
unfolding append new_wal load_latest_segment create_new_segment seal write_record write_frame
one_log_index = refl

one_log_term : one_log.term ≡ 0
unfolding append new_wal load_latest_segment create_new_segment seal write_record write_frame
one_log_term = refl

term_index : (set_term 3 one_log).0.index ≡ 1
unfolding append new_wal load_latest_segment create_new_segment seal write_record write_frame
    set_term
term_index = refl

later_reached : Reach (one_command sample) (Is sample) later_log (sample ∷ [])
later_reached =
    restarted (pos 10) (
      truncated 9 (term_set 3 one_reached (omega (arith, one_log_term)))
        (omega (arith, term_index)))

read_all-Reach_example :
    (rs : List WalRecord) × (read_all (one_command sample) later_log ≡ ok rs)
    × (commands rs ≡ sample ∷ [])
read_all-Reach_example =
    read_all-Reach (one_command sample) (Is sample) later_log (sample ∷ [])
      (one_command-IsCodec sample) later_reached

abbrev second : WalRecord
second = record { index = 2; term = 0; command = sample; checksum = 6; timestamp = pos 6 }

second_sealed :
    seal (one_command sample) (new_record (pos 6) sample one_log)
    ≡ ok (second, 2 ∷ 0 ∷ 6 ∷ 0 ∷ 6 ∷ [])
unfolding seal append new_wal load_latest_segment create_new_segment write_record write_frame
second_sealed = refl

append-torn_example :
    ((append (one_command sample) (pos 6) (torn 5) sample one_log).1 ≡ err write_failed)
    × ((x : WalError) × (read_all
            (one_command sample)
            (append (one_command sample) (pos 6) (torn 5) sample one_log).0
          ≡ err x))
    × ((max : ℤ)
        → (x : WalError) × (read_all
              (one_command sample)
              (new_wal max (append (one_command sample) (pos 6) (torn 5) sample one_log).0.dir)
            ≡ err x))
append-torn_example =
    append-torn (one_command sample) (Is sample) one_log (sample ∷ []) (pos 6) sample 5 second
      (2 ∷ 0 ∷ 6 ∷ 0 ∷ 6 ∷ []) (one_command-IsCodec sample) one_reached refl second_sealed
      (omega arith) (omega arith)

read_segment-ends_example :
    read_segment (one_command sample) (0 ∷ 0 ∷ 0 ∷ 9 ∷ 1 ∷ []) ≢ err out_of_fuel
read_segment-ends_example = read_segment-ends (one_command sample) (0 ∷ 0 ∷ 0 ∷ 9 ∷ 1 ∷ [])
