-- ===== src/Wal/Sample.antt =====
-- A codec for records of a few commands, which it writes as numbers.
use my_etcd.Base.{
  ℕ, ◌≤◌, ◌≡◌, refl, ap, sym, ◌∙◌, Option, none, some, [], ◌∷◌, Bytes, length, codes, arith,
  last_of,
}
use my_etcd.Base.Words.{ℤ, pos, negsuc}
use my_etcd.Types.{Command, command_put}
use my_etcd.Wal.Frames.{Codec, WalRecord}
use my_etcd.Wal.Reading.{IsCodec}

abbrev pub sample : Command
sample = record {
  kind = command_put;
  key = codes "k";
  value = codes "v";
  term = 0;
  index = 0;
  time = pos 1;
}

abbrev time_bytes : ℤ → Bytes
time_bytes (pos n) = n ∷ []
time_bytes (negsuc n) = n ∷ 1 ∷ []

-- A number for each command, and the command of each number.
module _ (number : Command → ℕ) (known : ℕ → Command) where
  abbrev decode : Bytes → Option WalRecord
  decode (i ∷ t ∷ sum ∷ c ∷ n ∷ []) =
      some (record { index = i; term = t; command = known c; checksum = sum; timestamp = pos n })
  decode (i ∷ t ∷ sum ∷ c ∷ n ∷ m ∷ []) =
      some (record { index = i; term = t; command = known c; checksum = sum; timestamp = negsuc n })
  decode _ = none

  abbrev encode : WalRecord → Bytes
  encode r = r.index ∷ r.term ∷ r.checksum ∷ number r.command ∷ time_bytes r.timestamp

  abbrev pub numbered : Codec
  numbered = record {
    marshal = λ r. some (encode r);
    unmarshal = decode;
    crc32 = λ bytes. last_of 0 bytes;
  }

  -- The commands that come back from their number.
  abbrev pub Known : Command → Type 0
  Known cmd = cmd ≡ known (number cmd)

  decode-encode :
      (index term sum c : ℕ) (time : ℤ)
      → decode (index ∷ term ∷ sum ∷ c ∷ time_bytes time)
        ≡ some (record {
          index = index;
          term = term;
          command = known c;
          checksum = sum;
          timestamp = time;
        })
  decode-encode index term sum c (pos n) = refl
  decode-encode index term sum c (negsuc n) = refl

  length-time_bytes : (time : ℤ) → length (time_bytes time) ≤ 2
  length-time_bytes (pos n) = omega arith
  length-time_bytes (negsuc n) = omega arith

  pub numbered-IsCodec : IsCodec numbered Known
  numbered-IsCodec = record {
    round_trip = λ r bytes k e.
        ap decode (sym (written r bytes e))
        ∙ decode-encode r.index r.term r.checksum (number r.command) r.timestamp
        ∙ ap (λ (x : Command). some (record r { command = x })) (sym k);
    short = λ r bytes k e.
        omega
          (arith, ap (λ (x : Bytes). length x) (written r bytes e), length-time_bytes r.timestamp);
  }
    where
      written : (r : WalRecord) (bytes : Bytes) → some (encode r) ≡ some bytes → encode r ≡ bytes
      written r bytes e = cc e

abbrev pub one_command : Command → Codec
one_command known = numbered (λ cmd. 0) (λ n. known)

abbrev pub Is : Command → Command → Type 0
Is known cmd = cmd ≡ known

pub one_command-IsCodec : (known : Command) → IsCodec (one_command known) (Is known)
one_command-IsCodec known = numbered-IsCodec (λ cmd. 0) (λ n. known)
