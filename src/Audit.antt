-- ===== src/Audit.antt =====
-- The audit log (internal/auditlog/stream.go): one live file and its rotated copies, `name.1` the
-- newest of them. A `Disk` maps the number in a file's name to the file, 0 for the live one. Nothing
-- else changes the directory; a removal or a rename fails only when the file is missing. What may go
-- wrong in a request (a value that is not encoded, a file that is not opened, a short write) is part
-- of the request. `Scan` is the library's line scanner.

pub mod Retention
pub mod Newest
mod Tests
use morpheus_uplink.Base.{
  ℕ, zero, suc, ◌+◌, ◌-◌, ◌*◌, ◌^◌, Bool, true, false, ◌&&◌, ◌||◌, Option, none, some, List, [],
  ◌∷◌, ◌++◌, Text, ltb, ◌==◌, if◌then◌else◌, length, not, trim_space,
}

abbrev pub default_max_bytes : ℕ
default_max_bytes = 5 * 2 ^ 20

abbrev pub default_files : ℕ
default_files = 3

-- A negative number is 0 here: the source treats both alike.
pub record Options : Type 0 where
  pub max_bytes : ℕ
  pub files : ℕ
  pub retention : ℕ

-- `foreign` is a regular file of another user.
pub data Kind : Type 0 where
  regular symlink irregular foreign : Kind

pub record File : Type 0 where
  pub kind : Kind
  pub content : Text
  pub modified : ℕ

abbrev pub Disk : Type 0
Disk = ℕ → Option File

pub record Stream : Type 0 where
  pub opt : Options
  pub disk : Disk
  pub live : Bool  -- the live file is open
  pub size : ℕ
  pub disabled : Bool
  pub write_warn : Bool

pub put : Disk → ℕ → Option File → Disk
put d i f j = if j == i then f else d j

abbrev pub new_file : ℕ → File
new_file now = record { kind = regular; content = []; modified = now }

abbrev pub is_regular : Kind → Bool
is_regular regular = true
is_regular symlink = false
is_regular irregular = false
is_regular foreign = true

abbrev pub is_owned : Kind → Bool
is_owned regular = true
is_owned symlink = false
is_owned irregular = false
is_owned foreign = false

-- The disk with the file there, and its size. `opens` says that the system opens or creates it.
pub open_file : Option File → Disk → ℕ → Bool → ℕ → Option (Disk × ℕ)
unfolding put
open_file none d i opens now = if opens then some (put d i (some (new_file now)), 0) else none
open_file (some f) d i opens now =
    if is_owned f.kind && opens then some (d, length f.content) else none

pub open_safe : Disk → ℕ → Bool → ℕ → Option (Disk × ℕ)
unfolding open_file
open_safe d i opens now = open_file (d i) d i opens now

-- The stream with the live file of `open_safe`, or disabled.
pub opened_at : Option (Disk × ℕ) → Stream → Stream
opened_at none s = record s { disabled = true }
opened_at (some (d, n)) s = record s { disk = d; live = true; size = n }

pub with_defaults : Options → Options
with_defaults opt = record {
  max_bytes = if opt.max_bytes == 0 then default_max_bytes else opt.max_bytes;
  files = if ltb opt.files 2 then default_files else opt.files;
  retention = opt.retention;
}

unfoldable pub open_stream : Disk → Options → Bool → ℕ → Stream
unfolding opened_at open_safe with_defaults
open_stream d opt opens now = opened_at (open_safe d 0 opens now) (record {
  opt = with_defaults opt;
  disk = d;
  live = false;
  size = 0;
  disabled = false;
  write_warn = false;
})

-- `os.Rename(s.path(i), s.path(i+1))`
pub moved : Option File → Disk → ℕ → Disk
unfolding put
moved none d i = d
moved (some f) d i = put (put d i none) (suc i) (some f)

-- The renames of the files below `n`, the highest first.
pub shift : ℕ → Disk → Disk
unfolding moved
shift zero d = d
shift (suc i) d = shift i (moved (d i) d i)

unfoldable pub rotate_locked : Stream → Bool → ℕ → Stream
unfolding opened_at open_safe shift put
rotate_locked s opens now =
    let last : ℕ = s.opt.files - 1 in
    let d : Disk = shift last (put s.disk last none) in
    opened_at (open_safe d 0 opens now) (record s { live = false; disk = d })

-- One call of Append: the encoded value, whether a new live file is opened, how many bytes the write
-- takes and whether it fails.
pub record Request : Type 0 where
  pub value : Option Text
  pub opens : Bool
  pub written : ℕ
  pub failed : Bool
  pub now : ℕ

abbrev drop : ℕ → Text → Text
drop zero s = s
drop (suc n) [] = []
drop (suc n) (c ∷ s) = drop n s

abbrev without_first : List Text → List Text
without_first [] = []
without_first (l ∷ ls) = ls

abbrev pub take : ℕ → Text → Text
take zero s = []
take (suc n) [] = []
take (suc n) (c ∷ s) = c ∷ take n s

-- What a write adds to the live file.
abbrev pub bytes_of : Request → Text → Text
bytes_of r line = take r.written line

pub extended : Option File → Text → ℕ → Option File
extended none more now = none
extended (some f) more now = some (record f { content = f.content ++ more; modified = now })

unfoldable pub write_line : Stream → Request → Text → Stream
unfolding put extended
write_line s r line = if not s.live then s else record s {
  disk = put s.disk 0 (extended (s.disk 0) (bytes_of r line) r.now);
  size = s.size + r.written;
  write_warn = r.failed;
}

abbrev pub newline : Text
newline = b'\n' ∷ []

pub needs_rotation : Stream → Text → Bool
needs_rotation s line = ltb 0 s.size && ltb s.opt.max_bytes (s.size + length line)

unfoldable pub append_line : Stream → Request → Text → Stream
unfolding write_line rotate_locked needs_rotation
append_line s r line =
    if s.disabled || not s.live
    then s
    else if needs_rotation s line
    then write_line (rotate_locked s r.opens r.now) r line
    else write_line s r line

unfoldable pub append_value : Option Text → Stream → Request → Stream
unfolding append_line
append_value none s r = s
append_value (some v) s r = append_line s r (v ++ newline)

unfoldable pub append : Stream → Request → Stream
unfolding append_value
append s r = append_value r.value s r

pub dated : Option ℕ → ℕ → ℕ
dated none modified = modified
dated (some t) modified = t

-- Whether a rotated file is deleted: it is regular and its newest line, or else the file itself, is
-- older than the retention.
pub expired : Option File → (Text → Option ℕ) → ℕ → Bool
unfolding dated
expired none newest_at cutoff = false
expired (some f) newest_at cutoff =
    is_regular f.kind && ltb (dated (newest_at f.content) f.modified) cutoff

-- The loop over the rotated files below `n`, with the number deleted; the order of the deletions does
-- not show.
pub prune_below : ℕ → Disk → (Text → Option ℕ) → ℕ → Disk × ℕ
unfolding expired put
prune_below zero d newest_at cutoff = (d, 0)
prune_below (suc zero) d newest_at cutoff = (d, 0)
prune_below (suc (suc i)) d newest_at cutoff =
    let (e, n) = prune_below (suc i) d newest_at cutoff in
    if expired (d (suc i)) newest_at cutoff then (put e (suc i) none, n + 1) else (e, n)

unfoldable pub prune : Stream → (Text → Option ℕ) → ℕ → Stream × ℕ
unfolding prune_below
prune s newest_at now =
    if s.opt.retention == 0
    then (s, 0)
    else let (d, n) = prune_below s.opt.files s.disk newest_at (now - s.opt.retention) in
      (record s { disk = d }, n)

-- One scanned line goes into the ring of at most `n` lines.
pub into_ring : ℕ → List Text → Text → List Text
into_ring n ring line =
    if length line == 0
    then ring
    else if length ring == n
    then without_first ring ++ line ∷ []
    else ring ++ line ∷ []

pub fill_ring : ℕ → List Text → List Text → List Text
unfolding into_ring
fill_ring n ring [] = ring
fill_ring n ring (b ∷ bs) = fill_ring n (into_ring n ring (trim_space b)) bs

-- What is read of a file: all of it, or its last 2 * default_max_bytes bytes.
abbrev pub read_window : Text → Text
read_window content =
    if ltb (2 * default_max_bytes) (length content)
    then drop (length content - 2 * default_max_bytes) content
    else content

pub tail_lines : (Text → List Text) → Option File → ℕ → List Text
unfolding fill_ring
tail_lines scan none n = []
tail_lines scan (some f) n =
    if n == 0 || not (is_regular f.kind) then [] else fill_ring n [] (scan (read_window f.content))

-- The loop over the files from `i` on, of which `k` are left.
pub tail_from : (Text → List Text) → Disk → ℕ → ℕ → ℕ → List Text → List Text
unfolding tail_lines
tail_from scan d zero i n out = out
tail_from scan d (suc k) i n out =
    let more = tail_from scan d k (i + 1) n (tail_lines scan (d i) (n - length out) ++ out) in
    if ltb (length out) n then more else out

unfoldable pub tail : (Text → List Text) → Stream → ℕ → List Text
unfolding tail_from
tail scan s n = tail_from scan s.disk s.opt.files 0 n []
