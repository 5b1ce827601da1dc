-- ===== src/TailReader.antt =====
-- fix_monitor/src/tail_reader.cpp and include/fixmon/tail_reader.hpp: complete lines from a file
-- that grows, is truncated or is replaced. The file is what a poll finds under the path: its
-- identity and its bytes, or nothing. One read takes all the bytes behind the place reached; the
-- source takes them in pieces of 65536.
pub mod Chunks
pub mod Polls
pub mod Rotations
pub mod Lines
mod Tests
use fix_mon.Prelude.{
  ℕ, zero, suc, ◌+◌, ◌%◌, ◌^◌, Bool, true, false, not, ◌&&◌, ◌||◌, Option, none, some, List, [],
  ◌∷◌, ◌++◌, Bytes, length, take, drop, is_empty, find_index, ltb, ◌==◌, if◌then◌else◌,
}

pub record File : Type 0 where
  pub file_id : ℕ
  pub content : Bytes

pub record TailReader : Type 0 where
  pub is_open : Bool
  pub offset : ℕ
  pub carry : Bytes
  pub inode : ℕ
  pub last_size : ℕ
  pub rotations : ℕ

-- the members before the stream is opened
abbrev pub closed_tail : TailReader
closed_tail = record {
  is_open = false;
  offset = 0;
  carry = [];
  inode = 0;
  last_size = 0;
  rotations = 0;
}

-- without one `\r` at the end
unfoldable pub strip_cr : Bytes → Bytes
strip_cr [] = []
strip_cr (c ∷ []) = if c == 13 then [] else c ∷ []
strip_cr (c ∷ (d ∷ cs)) = c ∷ strip_cr (d ∷ cs)

-- an empty line is not delivered
unfoldable pub emit : Bytes → List Bytes → List Bytes
emit line rest = if is_empty line then rest else line ∷ rest

abbrev pub is_newline : ℕ → Bool
is_newline c = c == b'\n'

-- The inner loop, on fuel: the lines delivered, and what is carried over.
unfoldable pub drain : ℕ → Bytes → List Bytes × Bytes
drain zero carry = ([], carry)
drain (suc fuel) carry = elim (find_index is_newline carry) [
  | none ↦ ([], carry)
  | some nl ↦ (
    emit (strip_cr (take nl carry)) (drain fuel (drop (suc nl) carry)).0,
    (drain fuel (drop (suc nl) carry)).1,
  )
]

-- what one piece of the file adds to what was carried over
unfoldable pub on_chunk : Bytes → Bytes → List Bytes × Bytes
on_chunk carry chunk = drain (suc (length (carry ++ chunk))) (carry ++ chunk)

unfoldable pub open_stream : Bool → Option File → TailReader → TailReader
open_stream seek_to_end none r = record r { is_open = false }
open_stream seek_to_end (some f) r = record r {
  is_open = true;
  offset = if seek_to_end then length f.content else 0;
  carry = [];
  inode = f.file_id;
  last_size = length f.content;
}

-- the constructor, on the file found then
unfoldable pub new_tail : Bool → Option File → TailReader
new_tail from_beginning file = open_stream (not from_beginning) file closed_tail

-- another file under the path, or a shorter one
unfoldable pub replaced : File → TailReader → Bool
replaced f r =
    (not (r.inode == 0) && (not (f.file_id == 0) && not (f.file_id == r.inode)))
    || ltb (length f.content) r.last_size

unfoldable pub detect_rotation : Option File → TailReader → TailReader
detect_rotation none r = r
detect_rotation (some f) r =
    if replaced f r
    then open_stream false (some f) (record r { rotations = (r.rotations + 1) % 2 ^ 64 })
    else record r { last_size = length f.content }

-- the read loop of `poll`
unfoldable pub read_new : Option File → TailReader → List Bytes × TailReader
read_new none r = ([], r)
read_new (some f) r = (
  (on_chunk r.carry (drop r.offset f.content)).0,
  record r {
    offset = if ltb r.offset (length f.content) then length f.content else r.offset;
    carry = (on_chunk r.carry (drop r.offset f.content)).1;
  },
)

-- `poll`, with the lines given to the callback in their order
unfoldable pub poll : Bool → Option File → TailReader → List Bytes × TailReader
poll from_beginning file r =
    let opened = if r.is_open then r else open_stream (not from_beginning) file r in
    if opened.is_open then read_new file (detect_rotation file opened) else ([], opened)

-- the polls of the loop in `run` of an adapter, on what each of them finds
unfoldable pub poll_all : Bool → List (Option File) → TailReader → List Bytes × TailReader
poll_all from_beginning [] r = ([], r)
poll_all from_beginning (file ∷ files) r =
    let (lines, r') = poll from_beginning file r in
    let (rest, last) = poll_all from_beginning files r' in (lines ++ rest, last)
