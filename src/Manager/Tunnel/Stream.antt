-- ===== src/Manager/Tunnel/Stream.antt =====
-- What is read of a connection is what was received.
use oumigo.Prelude.{
  ℕ, zero, suc, ◌≡◌, refl, sym, ap, subst, ◌∙◌, Bool, true, false, Option, none, some, List, [],
  ◌∷◌, ◌++◌, if◌then◌else◌, append_assoc, append-nil, Bool-cases, inl, inr, String,
}
use oumigo.Manager.Tunnel.{
  Bytes, TunnelConn, conn, pump_data, pump_end, split_at, read_pending, read_queued, read_from,
  read, close, ConnStep, receives, ends, closes, reads,
}

-- All bytes of a queue.
abbrev pub concat : List Bytes → Bytes
concat [] = []
concat (bytes ∷ queue) = bytes ++ concat queue

-- A connection, with all bytes that were received and read, whether its pump ended, and whether
-- a read answered the end of the file.
pub record Course : Type 0 where
  pub connection : TunnelConn
  pub received : Bytes
  pub taken : Bytes
  pub ended : Bool
  pub at_end : Bool

unfoldable pub begin : String → Course
begin node_id = record {
  connection = conn node_id;
  received = [];
  taken = [];
  ended = false;
  at_end = false;
}

-- What a read leaves, where `n` bytes at least one may be read; one that waits changes nothing.
abbrev read_course : Course → Option (TunnelConn × Bytes) → Course
read_course x none = x
read_course x (some (c, [])) = record x { connection = c; at_end = true }
read_course x (some (c, b ∷ bytes)) = record x { connection = c; taken = x.taken ++ b ∷ bytes }

-- Once the pump ended it receives nothing, and does not end again.
abbrev pub advance : Course → ConnStep → Course
advance x (receives bytes) =
    if x.ended
    then x
    else record x { connection = pump_data bytes x.connection; received = x.received ++ bytes }
advance x ends =
    if x.ended then x else record x { connection = pump_end x.connection; ended = true }
advance x closes = record x { connection = (close x.connection).0 }
advance x (reads n) = read_course x (read (suc n) x.connection)

unfoldable pub course : Course → List ConnStep → Course
course x [] = x
course x (s ∷ steps) = course (advance x s) steps

-- The queue is the messages that wait, and then the end of the file where the pump ended.
IsQueue : Bool → List Bytes → Type 0
IsQueue ended [] = ended ≡ false
IsQueue ended ([] ∷ queue) = (ended ≡ true) × (queue ≡ [])
IsQueue ended ((b ∷ bytes) ∷ queue) = IsQueue ended queue

-- What holds at every moment.
record IsSound (x : Course) : Type 0 where
  same : x.taken ++ (x.connection.pending ++ concat x.connection.incoming) ≡ x.received
  queue : IsQueue x.ended x.connection.incoming
  over :
      x.at_end ≡ true
      → (x.connection.pending ≡ []) × (concat x.connection.incoming ≡ []) × x.ended ≡ true

concat-append : (xs ys : List Bytes) → concat (xs ++ ys) ≡ concat xs ++ concat ys
concat-append [] ys = refl
concat-append (x ∷ xs) ys =
    ap (λ t. x ++ t) (concat-append xs ys) ∙ sym (append_assoc x (concat xs) (concat ys))

IsQueue-data :
    (queue : List Bytes) (b : ℕ) (bytes : Bytes)
    → IsQueue false queue
    → IsQueue false (queue ++ (b ∷ bytes) ∷ [])
unfolding IsQueue
IsQueue-data [] b bytes q = refl
IsQueue-data ([] ∷ queue) b bytes q = absurd (cc q.0)
IsQueue-data ((c ∷ more) ∷ queue) b bytes q = IsQueue-data queue b bytes q

IsQueue-end : (queue : List Bytes) → IsQueue false queue → IsQueue true (queue ++ [] ∷ [])
unfolding IsQueue
IsQueue-end [] q = (refl, refl)
IsQueue-end ([] ∷ queue) q = absurd (cc q.0)
IsQueue-end ((c ∷ more) ∷ queue) q = IsQueue-end queue q

split_at-append : (n : ℕ) (bytes : Bytes) → (split_at n bytes).0 ++ (split_at n bytes).1 ≡ bytes
unfolding split_at
split_at-append zero bytes = refl
split_at-append (suc n) [] = refl
split_at-append (suc n) (b ∷ bytes) = ap (λ t. b ∷ t) (split_at-append n bytes)

-- The same over the parts.
abbrev Sound : Bytes → Bytes → Bool → Bool → Bytes → List Bytes → Type 0
Sound received taken ended at_end pending incoming =
    (taken ++ (pending ++ concat incoming) ≡ received)
    × IsQueue ended incoming
    × (at_end ≡ true → (pending ≡ []) × (concat incoming ≡ []) × ended ≡ true)

sound :
    (x : Course)
    → IsSound x
    → Sound x.received x.taken x.ended x.at_end x.connection.pending x.connection.incoming
sound x i = (i.same, i.queue, i.over)

make :
    (x : Course)
    → Sound x.received x.taken x.ended x.at_end x.connection.pending x.connection.incoming
    → IsSound x
make x (a, b, c) = record { same = a; queue = b; over = c }

-- A read of bytes that are pending.
pending-IsSound :
    (x : Course) (n b : ℕ) (bytes : Bytes) (c : TunnelConn)
    → Sound x.received x.taken x.ended false (b ∷ bytes) c.incoming
    → x.at_end ≡ false
    → IsSound (read_course x (some (read_pending (suc n) (b ∷ bytes) c)))
unfolding read_pending split_at
pending-IsSound x n b bytes c (same, queue, over) e =
    let (taken, left) = split_at n bytes in
    make _ (
      append_assoc x.taken (b ∷ taken) (left ++ concat c.incoming)
          ∙ ap (λ t. x.taken ++ b ∷ t)
              (sym (append_assoc taken left (concat c.incoming))
                ∙ ap (λ t. t ++ concat c.incoming) (split_at-append n bytes))
          ∙ same,
      queue,
      λ h. absurd (cc (h, e)),
    )

queued-IsSound :
    (x : Course) (n : ℕ) (queue : List Bytes) (c : TunnelConn)
    → IsSound x
    → Sound x.received x.taken x.ended x.at_end [] queue
    → IsSound (read_course x (read_queued (suc n) queue c))
unfolding read_queued IsQueue
queued-IsSound x n [] c i s = i
queued-IsSound x n ([] ∷ queue) c i (same, q, over) =
    subst
      (λ z. IsSound (record x {
        connection = record c { incoming = z ++ [] ∷ []; pending = [] };
        at_end = true;
      }))
      (sym q.1)
      (make _ (ap (λ z. x.taken ++ concat z) (sym q.1) ∙ same, (q.0, refl), λ h. (refl, refl, q.0)))
queued-IsSound x n ((b ∷ bytes) ∷ queue) c i (same, q, over) =
    pending-IsSound x n b bytes (record c { incoming = queue }) (same, q, λ h. absurd (cc h))
      (elim (Bool-cases x.at_end) [ inl h ↦ let (u, v, w) = over h in absurd (cc v) | inr h ↦ h ])

from-IsSound :
    (x : Course) (n : ℕ) (pending : Bytes) (c : TunnelConn)
    → IsSound x
    → Sound x.received x.taken x.ended x.at_end pending c.incoming
    → IsSound (read_course x (read_from (suc n) pending c))
unfolding read_from
from-IsSound x n [] c i s = queued-IsSound x n c.incoming c i s
from-IsSound x n (b ∷ bytes) c i (same, q, over) =
    pending-IsSound x n b bytes c (same, q, λ h. absurd (cc h))
      (elim (Bool-cases x.at_end) [ inl h ↦ let (u, v, w) = over h in absurd (cc u) | inr h ↦ h ])

data-IsSound :
    (x : Course) (bytes : Bytes)
    → x.ended ≡ false
    → IsSound x
    → IsSound
        (record x { connection = pump_data bytes x.connection; received = x.received ++ bytes })
unfolding pump_data
data-IsSound x [] e i = make _ (i.same ∙ sym (append-nil x.received), i.queue, i.over)
data-IsSound x (b ∷ bytes) e i =
    let c = x.connection in
    make _ (
      ap (λ t. x.taken ++ (c.pending ++ t))
            (concat-append c.incoming ((b ∷ bytes) ∷ [])
              ∙ ap (λ t. concat c.incoming ++ t) (append-nil (b ∷ bytes)))
          ∙ ap (λ t. x.taken ++ t) (sym (append_assoc c.pending (concat c.incoming) (b ∷ bytes)))
          ∙ sym (append_assoc x.taken (c.pending ++ concat c.incoming) (b ∷ bytes))
          ∙ ap (λ t. t ++ b ∷ bytes) i.same,
      subst (λ z. IsQueue z (c.incoming ++ (b ∷ bytes) ∷ [])) (sym e)
          (IsQueue-data c.incoming b bytes (subst (λ z. IsQueue z c.incoming) e i.queue)),
      λ h. let (u, v, w) = i.over h in absurd (cc (w, e)),
    )

end-IsSound :
    (x : Course)
    → x.ended ≡ false
    → IsSound x
    → IsSound (record x { connection = pump_end x.connection; ended = true })
unfolding pump_end
end-IsSound x e i =
    let c = x.connection in
    let none_more : concat (c.incoming ++ [] ∷ []) ≡ concat c.incoming =
      concat-append c.incoming ([] ∷ []) ∙ append-nil (concat c.incoming) in
    make _ (
      ap (λ t. x.taken ++ (c.pending ++ t)) none_more ∙ i.same,
      IsQueue-end c.incoming (subst (λ z. IsQueue z c.incoming) e i.queue),
      λ h. let (u, v, w) = i.over h in (u, none_more ∙ v, refl),
    )

if-IsSound :
    (b : Bool) (x y : Course) → IsSound x → (b ≡ false → IsSound y) → IsSound (if b then x else y)
if-IsSound true x y i j = i
if-IsSound false x y i j = j refl

close-IsSound :
    (x : Course) (b : Bool)
    → IsSound x
    → let c = x.connection in
      let r : TunnelConn × Bool = if b then (c, false) else (record c { closed = true }, true) in
      IsSound (record x { connection = r.0 })
close-IsSound x true i = i
close-IsSound x false i = make _ (i.same, i.queue, i.over)

advance-IsSound : (x : Course) (s : ConnStep) → IsSound x → IsSound (advance x s)
advance-IsSound x (receives bytes) i = if-IsSound x.ended x _ i (λ e. data-IsSound x bytes e i)
advance-IsSound x ends i = if-IsSound x.ended x _ i (λ e. end-IsSound x e i)
advance-IsSound x closes i = unfold close in close-IsSound x x.connection.closed i
advance-IsSound x (reads n) i =
    unfold read in from-IsSound x n x.connection.pending x.connection i (sound x i)

course-IsSound : (x : Course) (steps : List ConnStep) → IsSound x → IsSound (course x steps)
unfolding course
course-IsSound x [] i = i
course-IsSound x (s ∷ steps) i = course-IsSound (advance x s) steps (advance-IsSound x s i)

begin-IsSound : (node_id : String) → IsSound (begin node_id)
unfolding begin conn IsQueue
begin-IsSound node_id = make _ (refl, refl, λ h. absurd (cc h))

-- A tunnel connection is a stream: whatever messages come, however they are cut by the reads, in any
-- order, what was read, then what is pending and queued, is what was received, byte by byte; and a
-- read answers the end of the file only once the worker's side ended and all of it was read.
pub course-Stream :
    (node_id : String) (steps : List ConnStep)
    → let x = course (begin node_id) steps in
      (x.taken ++ (x.connection.pending ++ concat x.connection.incoming) ≡ x.received)
      × (x.at_end ≡ true → (x.taken ≡ x.received) × x.ended ≡ true)
course-Stream node_id steps =
    let x = course (begin node_id) steps in
    let i = course-IsSound (begin node_id) steps (begin-IsSound node_id) in
    (
      i.same,
      λ h.
          let (u, v, w) = i.over h in
          (
            sym (
                  ap (λ p. x.taken ++ (p ++ concat x.connection.incoming)) u
                  ∙ ap (λ q. x.taken ++ q) v
                  ∙ append-nil x.taken)
                ∙ i.same,
            w,
          ),
    )
