-- ===== src/ProcessInfo.antt =====
-- base/ProcessInfo.h and base/ProcessInfo.cpp: what the program finds out about its process. The
-- texts of /proc, the entries of its directories and the answers of the operating system are
-- parameters.
pub mod Names
pub mod Counts
mod Examples
use cly_server.Base.{
  ℕ, zero, suc, ◌+◌, ◌-◌, ◌*◌, ◌%◌, ◌^◌, min, Bool, true, false, ◌&&◌, ◌||◌, Option, none, some,
  List, [], ◌∷◌, ◌++◌, ltb, leb, ◌==◌, if◌then◌else◌, drop, Result, ok, assert, ◌>>=◌, ◌>>◌, codes,
}
use mathlib.Core.Option
use cly_server.Base.Int.{ℤ, pos, negsuc}
use cly_server.Base.Decimal.{decimal}
use cly_server.StringPiece.{StringPiece, empty_piece, set_buffer, as_string}
use cly_server.Logger.{find_last}

unfoldable pub is_digit : ℕ → Bool
is_digit b = leb b'0' b && leb b b'9'

-- `isdigit(d->d_name[0])`; an empty name has a zero byte there.
unfoldable pub starts_with_digit : List ℕ → Bool
starts_with_digit [] = false
starts_with_digit (b ∷ bs) = is_digit b

-- The digits that `atoi` reads, behind a value.
unfoldable pub atoi_digits : ℕ → List ℕ → ℕ
atoi_digits acc [] = acc
atoi_digits acc (b ∷ bs) =
    let rest = atoi_digits (10 * acc + (b - b'0')) bs in if is_digit b then rest else acc

unfoldable pub is_space : ℕ → Bool
is_space b = b == b' ' || (leb 9 b && leb b 13)

-- The low 32 bits of a `long`, given by its bits, as an `int`.
unfoldable pub as_int : ℕ → ℤ
as_int bits =
    let low = bits % 2 ^ 32 in if ltb low (2 ^ 31) then pos low else negsuc (2 ^ 32 - 1 - low)

-- `strtol` stops at the greatest and at the least `long`.
unfoldable pub positive : ℕ → ℤ
positive n = as_int (min n (2 ^ 63 - 1))

unfoldable pub negated : ℕ → ℤ
negated n = as_int (2 ^ 64 - min n (2 ^ 63))

unfoldable pub atoi_sign : List ℕ → ℤ
atoi_sign [] = pos 0
atoi_sign (b ∷ bs) =
    if b == b'-'
    then negated (atoi_digits 0 bs)
    else if b == b'+'
    then positive (atoi_digits 0 bs)
    else positive (atoi_digits 0 (b ∷ bs))

-- `atoi`, as the GNU library has it: `strtol`, cut to an `int`. For a number that an `int` does not
-- hold the language leaves the result open.
unfoldable pub atoi : List ℕ → ℤ
atoi [] = pos 0
atoi (b ∷ bs) = let rest = atoi bs in if is_space b then rest else atoi_sign (b ∷ bs)

-- `scandir` calls the filter on each name. The filters select none.
unfoldable pub scan : {S : Type 0} → (List ℕ → S → S) → List (List ℕ) → S → S
scan filter [] s = s
scan filter (name ∷ names) s = scan filter names (filter name s)

-- The list that `scandir` leaves must be null.
unfoldable pub scan_dir : {S : Type 0} → (List ℕ → S → S) → List (List ℕ) → Bool → S → Result S
scan_dir filter names list_is_null s = assert list_is_null >> ok (scan filter names s)

unfoldable pub fd_dir_filter : List ℕ → ℕ → ℕ
fd_dir_filter name opened = if starts_with_digit name then suc opened else opened

unfoldable pub opened_files : List (List ℕ) → Bool → Result ℕ
opened_files names list_is_null = scan_dir fd_dir_filter names list_is_null 0

-- By the soft limit, if `getrlimit` gives it.
unfoldable pub max_open_files : Option ℕ → List (List ℕ) → Bool → Result ℕ
max_open_files (some limit) names list_is_null = ok limit
max_open_files none names list_is_null = opened_files names list_is_null

unfoldable pub task_dir_filter : List ℕ → List ℤ → List ℤ
task_dir_filter name pids = if starts_with_digit name then pids ++ atoi name ∷ [] else pids

unfoldable pub leb_int : ℤ → ℤ → Bool
leb_int (pos m) (pos n) = leb m n
leb_int (pos m) (negsuc n) = false
leb_int (negsuc m) (pos n) = true
leb_int (negsuc m) (negsuc n) = leb n m

unfoldable pub insert_pid : ℤ → List ℤ → List ℤ
insert_pid p [] = p ∷ []
insert_pid p (q ∷ qs) = let rest = insert_pid p qs in if leb_int p q then p ∷ q ∷ qs else q ∷ rest

-- `std::sort`.
unfoldable pub sort_pids : List ℤ → List ℤ
sort_pids [] = []
sort_pids (p ∷ ps) = insert_pid p (sort_pids ps)

unfoldable pub threads : List (List ℕ) → Bool → Result (List ℤ)
threads names list_is_null =
    scan_dir task_dir_filter names list_is_null [] >>= λ pids. ok (sort_pids pids)

unfoldable pub pid_string : ℕ → List ℕ
pid_string pid = decimal pid

-- By the entry that `getpwuid_r` finds.
unfoldable pub username : Option (List ℕ) → List ℕ
username none = codes "unknownuser"
username (some name) = name

-- By what `gethostname` writes.
unfoldable pub host_name : Option (List ℕ) → List ℕ
host_name none = codes "unknownhost"
host_name (some name) = name

-- By what `readlink` writes; `none` is an error.
unfoldable pub exe_path : Option (List ℕ) → List ℕ
exe_path none = []
exe_path (some path) = path

-- `std::string::find` of a byte.
unfoldable pub find_first : ℕ → List ℕ → Option ℕ
find_first b [] = none
find_first b (c ∷ cs) =
    let rest = find_first b cs in if c == b then some 0 else Option.map (λ i. suc i) rest

unfoldable pub name_between : List ℕ → Option ℕ → Option ℕ → StringPiece
name_between stat (some lp) (some rp) =
    if ltb lp rp then set_buffer empty_piece (drop (lp + 1) stat) (rp - lp - 1) else empty_piece
name_between stat _ _ = empty_piece

unfoldable pub procname : List ℕ → StringPiece
procname stat = name_between stat (find_first b'(' stat) (find_last b')' stat)

unfoldable pub is_prefix : List ℕ → List ℕ → Bool
is_prefix [] text = true
is_prefix (a ∷ as') [] = false
is_prefix (a ∷ as') (b ∷ bs) = a == b && is_prefix as' bs

-- What stands where a text is first found, from there on.
unfoldable pub from_found : List ℕ → List ℕ → Option (List ℕ)
from_found needle [] = if is_prefix needle [] then some [] else none
from_found needle (b ∷ bs) =
    let rest = from_found needle bs in if is_prefix needle (b ∷ bs) then some (b ∷ bs) else rest

unfoldable pub thread_count : Option (List ℕ) → ℤ
thread_count none = pos 0
thread_count (some text) = atoi (drop 8 text)

unfoldable pub num_threads : List ℕ → ℤ
num_threads status = thread_count (from_found (codes "Threads:") status)
