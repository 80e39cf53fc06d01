-- ===== src/Wal/Files.antt =====
-- The directory of internal/wal/wal.go while the open file is its last: opening a file of a later
-- name, and writing to the last one.
use my_etcd.Base.{
  ◌≡◌, refl, sym, ap, ◌∙◌, true, List, [], ◌∷◌, ◌++◌, Bytes, nat_eq, arith, All, append_assoc,
  append-nil, last_of,
}
use my_etcd.Base.Result.{ok, err}
use my_etcd.Wal.Frames.{Codec, WalRecord, WalError}
use my_etcd.Wal.Segments.{
  WalSegment, FileName, name_of, before, open_file, append_file, read_segments,
}
use my_etcd.Wal.Reading.{Holds, read_segment-Holds}

abbrev pub new_file : FileName → WalSegment
new_file name = record { index = name.0; term = name.1; content = [] }

-- The name comes after those of the files.
abbrev pub AllBefore : FileName → List WalSegment → Type 0
AllBefore name dir = All (λ s. before (name_of s) name ≡ true) dir

pub open_file-later :
    (name : FileName) (dir : List WalSegment)
    → AllBefore name dir
    → open_file name dir ≡ dir ++ (new_file name ∷ [])
unfolding open_file
open_file-later name [] h = refl
open_file-later name (s ∷ dir) h = ground (arith, h.0, open_file-later name dir h.1)

pub open_file-last :
    (front : List WalSegment) (s : WalSegment)
    → AllBefore (name_of s) front
    → open_file (name_of s) (front ++ (s ∷ [])) ≡ front ++ (s ∷ [])
unfolding open_file
open_file-last [] s h = ground arith
open_file-last (t ∷ front) s h = ground (arith, h.0, open_file-last front s h.1)

pub append_file-last :
    (front : List WalSegment) (s : WalSegment) (bytes : Bytes)
    → AllBefore (name_of s) front
    → append_file (name_of s) bytes (front ++ (s ∷ []))
      ≡ front ++ (record s { content = s.content ++ bytes } ∷ [])
unfolding append_file
append_file-last [] s bytes h = ground arith
append_file-last (t ∷ front) s bytes h = ground (arith, h.0, append_file-last front s bytes h.1)

pub before_trans : (a b c : FileName) → before a b ≡ true → before b c ≡ true → before a c ≡ true
before_trans a b c p q = ground arith

pub AllBefore-trans :
    (a b : FileName) (dir : List WalSegment) → AllBefore a dir → before a b ≡ true → AllBefore b dir
AllBefore-trans a b [] h p = tt
AllBefore-trans a b (s ∷ dir) h p =
    (before_trans (name_of s) a b h.0 p, AllBefore-trans a b dir h.1 p)

pub All-append :
    (P : WalSegment → Type 0) (xs ys : List WalSegment) → All P xs → All P ys → All P (xs ++ ys)
All-append P [] ys h k = k
All-append P (x ∷ xs) ys h k = (h.0, All-append P xs ys h.1 k)

pub last_of-append : (a s : WalSegment) (xs : List WalSegment) → last_of a (xs ++ (s ∷ [])) ≡ s
last_of-append a s [] = refl
last_of-append a s (x ∷ xs) = last_of-append x s xs

-- The files hold the records, file by file.
abbrev pub HoldsAll : Codec → List WalRecord → List WalSegment → Type 0
HoldsAll c rs [] = rs ≡ []
HoldsAll c rs (s ∷ dir) =
    (here : List WalRecord) × (rest : List WalRecord) × (rs ≡ here ++ rest)
    × Holds c here s.content
    × HoldsAll c rest dir

pub read_segments-HoldsAll :
    (c : Codec) (rs : List WalRecord) (dir : List WalSegment)
    → HoldsAll c rs dir
    → read_segments c dir ≡ ok rs
unfolding read_segments
read_segments-HoldsAll c rs [] h = ap (λ (x : List WalRecord). ok x) (sym h)
read_segments-HoldsAll c rs (s ∷ dir) (here, rest, same, h, k) =
    ground (arith, read_segment-Holds c here s.content h, read_segments-HoldsAll c rest dir k, same)

pub HoldsAll-append :
    (c : Codec) (rs here : List WalRecord) (dir : List WalSegment) (s : WalSegment)
    → HoldsAll c rs dir
    → Holds c here s.content
    → HoldsAll c (rs ++ here) (dir ++ (s ∷ []))
HoldsAll-append c rs here [] s h k =
    (here, [], ap (λ (x : List WalRecord). x ++ here) h ∙ sym (append-nil here), k, refl)
HoldsAll-append c rs here (t ∷ dir) s (first, rest, same, h, more) k = (
  first,
  rest ++ here,
  ap (λ (x : List WalRecord). x ++ here) same ∙ append_assoc first rest here,
  h,
  HoldsAll-append c rest here dir s more k,
)

-- The files after those that hold their records decide how the directory is read.
pub read_segments-past :
    (c : Codec) (rs : List WalRecord) (dir tail : List WalSegment) (x : WalError)
    → HoldsAll c rs dir
    → read_segments c tail ≡ err x
    → read_segments c (dir ++ tail) ≡ err x
unfolding read_segments
read_segments-past c rs [] tail x h e = e
read_segments-past c rs (s ∷ dir) tail x (here, rest, same, h, k) e =
    ground (arith, read_segment-Holds c here s.content h, read_segments-past c rest dir tail x k e)
