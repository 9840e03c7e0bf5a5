-- ===== src/Buffer/Queue.antt =====
-- The contract of net/Buffer.h over sequences of the calls that add bytes behind and take them
-- away, against a queue of bytes.
use cly_server.Base.{
  ℕ, ◌+◌, ◌-◌, ◌<◌, ◌≤◌, ◌≡◌, refl, List, [], ◌∷◌, ◌++◌, arith, length, take, drop, leb, le→leb,
  lt→leb, Result, ok, fault, assert_failed, ◌>>=◌, dec_le, if◌then◌else◌, max,
}
use cly_server.Buffer.{
  Buffer, max_size, contents, readable_bytes, append, retrieve, retrieve_all, retrieve_until,
  unwrite, retrieve_as_string, retrieve_all_as_string,
}
use cly_server.Buffer.Invariant.{IsValid, length-contents}
use cly_server.Buffer.Contents.{
  append-Holds, unwrite-Holds, retrieve-Holds, retrieve-fault, retrieve_as_string-fault,
  retrieve_as_string-Holds, retrieve_all_as_string-Holds,
}

pub data Op : Type 0 where
  append_bytes : List ℕ → Op
  retrieve_some : ℕ → Op
  retrieve_up_to : ℕ → Op
  unwrite_some : ℕ → Op
  take_string : ℕ → Op
  take_all : Op

-- A call answers with the string that it returns, if it returns one.
pub step : Buffer → Op → Result (List ℕ × Buffer)
step b (append_bytes input) = do b' ← append b input; ok ([], b')
step b (retrieve_some len) = do b' ← retrieve b len; ok ([], b')
step b (retrieve_up_to end) = do b' ← retrieve_until b end; ok ([], b')
step b (unwrite_some len) = do b' ← unwrite b len; ok ([], b')
step b (take_string len) = retrieve_as_string b len
step b take_all = retrieve_all_as_string b

pub run : Buffer → List Op → Result (List (List ℕ))
run b [] = ok []
run b (op ∷ ops) = do (reply, b') ← step b op; replies ← run b' ops; ok (reply ∷ replies)

-- The same calls on a plain queue.
pub queue_step : List ℕ → Op → Result (List ℕ × List ℕ)
queue_step q (append_bytes input) = ok ([], q ++ input)
queue_step q (retrieve_some len) =
    if leb len (length q) then ok ([], drop len q) else fault assert_failed
queue_step q (retrieve_up_to end) =
    if leb end (length q) then ok ([], drop end q) else fault assert_failed
queue_step q (unwrite_some len) =
    if leb len (length q) then ok ([], take (length q - len) q) else fault assert_failed
queue_step q (take_string len) =
    if leb len (length q) then ok (take len q, drop len q) else fault assert_failed
queue_step q take_all = ok (q, [])

pub queue_run : List ℕ → List Op → Result (List (List ℕ))
queue_run q [] = ok []
queue_run q (op ∷ ops) = do
  (reply, q') ← queue_step q op
  replies ← queue_run q' ops
  ok (reply ∷ replies)

-- The bytes that the calls append.
abbrev pub total : List Op → ℕ
total [] = 0
total (append_bytes input ∷ ops) = length input + total ops
total (_ ∷ ops) = total ops

added : Op → ℕ
added (append_bytes input) = length input
added _ = 0

total-cons : (op : Op) (ops : List Op) → total (op ∷ ops) ≡ added op + total ops
unfolding added
total-cons (append_bytes input) ops = refl
total-cons (retrieve_some len) ops = omega arith
total-cons (take_string len) ops = omega arith
total-cons (retrieve_up_to end) ops = omega arith
total-cons (unwrite_some len) ops = omega arith
total-cons take_all ops = omega arith

retrieve-writer : (b b' : Buffer) (len : ℕ) → retrieve b len ≡ ok b' → b'.writer ≤ max b.writer 8
unfolding retrieve retrieve_all
retrieve-writer b b' len e = ground arith

retrieve_until-retrieve : (b : Buffer) (end : ℕ) → retrieve_until b end ≡ retrieve b end
unfolding retrieve_until retrieve
retrieve_until-retrieve b end = ground arith

unwrite-writer : (b b' : Buffer) (len : ℕ) → unwrite b len ≡ ok b' → b'.writer ≤ max b.writer 8
unfolding unwrite
unwrite-writer b b' len e = ground arith

unwrite-fault :
    (b : Buffer) (len : ℕ) → readable_bytes b < len → unwrite b len ≡ fault assert_failed
unfolding unwrite
unwrite-fault b len h = ground arith

retrieve_as_string-writer :
    (b b' : Buffer) (len : ℕ) {xs : List ℕ}
    → retrieve_as_string b len ≡ ok (xs, b')
    → b'.writer ≤ max b.writer 8
unfolding retrieve_as_string retrieve retrieve_all
retrieve_as_string-writer b b' len e = ground arith

retrieve_all_as_string-writer :
    (b b' : Buffer) {xs : List ℕ}
    → retrieve_all_as_string b ≡ ok (xs, b')
    → b'.writer ≤ max b.writer 8
unfolding retrieve_all_as_string
retrieve_all_as_string-writer b b' e = retrieve_as_string-writer b b' (readable_bytes b) e

-- The answers that a call may give, for a buffer and a queue with the same bytes: a fault of both,
-- or the same string, and then the same bytes again.
data Agrees (b : Buffer) (op : Op) (r : Result (List ℕ × Buffer)) (s : Result (List ℕ × List ℕ))
    : Type 0 where
  both_fault : r ≡ fault assert_failed → s ≡ fault assert_failed → Agrees b op r s
  both_ok :
      (reply : List ℕ) (b' : Buffer)
      → r ≡ ok (reply, b')
      → s ≡ ok (reply, contents b')
      → IsValid b'
      → b'.writer ≤ max b.writer 8 + added op
      → Agrees b op r s

step-Agrees :
    (b : Buffer) (op : Op)
    → IsValid b
    → b.writer + added op ≤ max_size
    → Agrees b op (step b op) (queue_step (contents b) op)
unfolding step queue_step added
step-Agrees b (append_bytes input) v h =
    let (b', e, v', c, w) = append-Holds b input v h in
    both_ok [] b' (rw e) (rw c) v' (omega (arith, w))
step-Agrees b (retrieve_some len) v h = elim (dec_le len (readable_bytes b)) [
  | yes fits ↦
      let (b', e, v', c) = retrieve-Holds b len v fits in
      both_ok [] b' (rw e) (rw (c, length-contents v, le→leb len (readable_bytes b) fits)) v'
        (omega (arith, retrieve-writer b b' len e))
  | no more ↦
      both_fault (rw (retrieve-fault b len (omega arith)))
        (rw (length-contents v, lt→leb len (readable_bytes b) (omega arith)))
]
step-Agrees b (retrieve_up_to end) v h = elim (dec_le end (readable_bytes b)) [
  | yes fits ↦
      let (b', e, v', c) = retrieve-Holds b end v fits in
      both_ok [] b' (rw (retrieve_until-retrieve b end, e))
        (rw (c, length-contents v, le→leb end (readable_bytes b) fits)) v'
        (omega (arith, retrieve-writer b b' end e))
  | no more ↦
      both_fault (rw (retrieve_until-retrieve b end, retrieve-fault b end (omega arith)))
        (rw (length-contents v, lt→leb end (readable_bytes b) (omega arith)))
]
step-Agrees b (unwrite_some len) v h = elim (dec_le len (readable_bytes b)) [
  | yes fits ↦
      let (b', e, v', c) = unwrite-Holds b len v fits in
      both_ok [] b' (rw e) (rw (c, length-contents v, le→leb len (readable_bytes b) fits)) v'
        (omega (arith, unwrite-writer b b' len e))
  | no more ↦
      both_fault (rw (unwrite-fault b len (omega arith)))
        (rw (length-contents v, lt→leb len (readable_bytes b) (omega arith)))
]
step-Agrees b (take_string len) v h = elim (dec_le len (readable_bytes b)) [
  | yes fits ↦
      let (b', e, v', c) = retrieve_as_string-Holds b len v fits in
      both_ok (take len (contents b)) b' e
        (rw (c, length-contents v, le→leb len (readable_bytes b) fits)) v'
        (omega (arith, retrieve_as_string-writer b b' len e))
  | no more ↦
      both_fault (retrieve_as_string-fault b len (omega arith))
        (rw (length-contents v, lt→leb len (readable_bytes b) (omega arith)))
]
step-Agrees b take_all v h =
    let (b', e, v', c) = retrieve_all_as_string-Holds b v in
    both_ok (contents b) b' e (rw c) v' (omega (arith, retrieve_all_as_string-writer b b' e))

-- Any calls of `append`, `retrieve`, `retrieveUntil`, `unwrite`, `retrieveAsString` and
-- `retrieveAllAsString` on a valid buffer answer as on the queue of its readable bytes, failed
-- assertions included, as long as what they append stays within what `std::vector` can hold.
pub run_refines :
    (ops : List Op) (b : Buffer)
    → IsValid b
    → max b.writer 8 + total ops ≤ max_size
    → run b ops ≡ queue_run (contents b) ops
unfolding run queue_run
run_refines [] b v h = refl
run_refines (op ∷ ops) b v h =
    follow (step-Agrees b op v (omega (arith, total-cons op ops))) (λ b'. run_refines ops b')
  where
    follow :
        Agrees b op (step b op) (queue_step (contents b) op)
        → ((b' : Buffer)
            → IsValid b'
            → max b'.writer 8 + total ops ≤ max_size
            → run b' ops ≡ queue_run (contents b') ops)
        → run b (op ∷ ops) ≡ queue_run (contents b) (op ∷ ops)
    follow (both_fault r s) rest = rw (r, s)
    follow (both_ok reply b' r s v' w) rest =
        rw (r, s, rest b' v' (omega (arith, w, total-cons op ops)))
