-- ===== src/FileUtil/Examples.antt =====
-- Appending and reading by base/FileUtil.cpp on concrete data.
use cly_server.Base.{
  ◌≡◌, refl, true, false, some, none, List, [], ◌∷◌, inl, inr, take, codes, arith,
}
use cly_server.FileUtil.{
  AppendFile, Fwrite, Reply, Read, got, append, append_loop, write, count_written, open_small,
  read_to_string, regular, to_read,
}
use cly_server.FileUtil.Appending.{Appended, append-Appended}
use cly_server.FileUtil.Reading.{Reads, ended, more, read_to_string-Reads}

abbrev new_file : AppendFile
new_file = record { name = codes "f.log"; taken = []; flushed = 0; written_bytes = 0 }

abbrev two_calls : List Fwrite
two_calls =
    record { count = 2; error = false }
    ∷ record { count = 1; error = false }
    ∷ record { count = 0; error = false }
    ∷ []

-- A call that takes a part of the line is followed by another.
append_in_pieces :
    append new_file (codes "abc") two_calls
    ≡ some (record new_file { taken = codes "abc"; written_bytes = 3 })
unfolding append append_loop write count_written
append_in_pieces = refl

-- The bytes that the failing call took are in the stream, and not counted.
append_broken :
    append new_file (codes "abc") (record { count = 2; error = true } ∷ [])
    ≡ some (record new_file { taken = codes "ab" })
unfolding append append_loop write count_written
append_broken = refl

abbrev one_by_one : List Fwrite
one_by_one =
    record { count = 1; error = false }
    ∷ record { count = 0; error = true }
    ∷ record { count = 1; error = false }
    ∷ []

append-Appended_example :
    (f' : AppendFile) × (append new_file (codes "abc") one_by_one ≡ some f')
    × Appended new_file (codes "abc") one_by_one f'
append-Appended_example =
    append-Appended new_file (codes "abc") one_by_one
      (
        omega arith,
        inl (omega arith),
        (omega arith, inr refl, (omega arith, inl (omega arith), tt)),
      )
      (omega arith)

abbrev hello : List Read
hello = got (codes "he") ∷ got (codes "llo") ∷ got [] ∷ []

hello-Reads : Reads 100 [] (codes "hello") hello
unfolding to_read
hello-Reads =
    more 1 (omega arith) (omega arith) (omega arith)
      (more 2 (omega arith) (omega arith) (omega arith) ended)

read_to_string-Reads_example :
    (r : Reply) × (read_to_string (open_small none) 100 (codes "old") true false (regular 5 7) hello
      ≡ some r)
    × (r.content ≡ take 100 (codes "hello"))
    × (r.error ≡ 0)
read_to_string-Reads_example = read_to_string-Reads (codes "old") true false 5 7 hello-Reads
