-- ===== src/Hub/Caps.antt =====
-- The caps of rooms and members, and the bound of every queue, hold after any calls.
use openburrow.Prelude.{
  ℕ, ◌+◌, ◌≤◌, ◌≡◌, Bool, true, not, Option, none, some, some-injective, List, [], ◌∷◌, ◌++◌, Text,
  text_eq, length, length-append, select, is_empty, if_both, leb, Bool-cases, Option-cases, arith,
  inl, inr,
}
use openburrow.Hub.{Connection}
use openburrow.Hub.Members.{
  Hub, find, set, pop, pair_eq, held, new_connection, admit, without, leave, wake, release_open,
  release, Publication, offer, offer_object, offer_all, publish, pump, Publication,
}
use openburrow.Hub.Bounds.{IsBounded, offer-IsBounded, wake-IsBounded, pump_round-IsBounded}

-- Every value of the rows.
module _ {K V : Type 0} (P : V → Type 0) where
  abbrev pub AllRows : List (K × V) → Type 0
  AllRows [] = Unit
  AllRows ((k, v) ∷ rows) = P v × AllRows rows

  AllRows-set :
      (eq : K → K → Bool) (rows : List (K × V)) (k : K) (v : V)
      → P v
      → AllRows rows
      → AllRows (set eq rows k v)
  unfolding set
  AllRows-set eq [] k v p a = (p, tt)
  AllRows-set eq ((j, w) ∷ rows) k v p (q, a) =
      if_both AllRows (eq j k) ((j, v) ∷ rows) ((j, w) ∷ set eq rows k v) (p, a)
        (q, AllRows-set eq rows k v p a)

  AllRows-find :
      (eq : K → K → Bool) (rows : List (K × V)) (k : K) (v : V)
      → find eq rows k ≡ some v
      → AllRows rows
      → P v
  unfolding find
  AllRows-find eq [] k v e a = absurd (cc e)
  AllRows-find eq ((j, w) ∷ rows) k v e (p, a) =
      let later = λ (h : find eq rows k ≡ some v). AllRows-find eq rows k v h a in
      elim (Bool-cases (eq j k)) [
        | inl h ↦ let same : w ≡ v = some-injective _ _ (rw h at e) in rw (← same) p
        | inr h ↦ later (rw h at e)
      ]

  AllRows-select :
      (keep : K × V → Bool) (rows : List (K × V)) → AllRows rows → AllRows (select keep rows)
  AllRows-select keep [] a = tt
  AllRows-select keep ((j, w) ∷ rows) (p, a) =
      if_both AllRows (keep (j, w)) ((j, w) ∷ select keep rows) (select keep rows)
        (p, AllRows-select keep rows a) (AllRows-select keep rows a)

length-select : {A : Type 0} (keep : A → Bool) (xs : List A) → length (select keep xs) ≤ length xs
length-select keep [] = omega arith
length-select keep (x ∷ xs) = ground (arith, length-select keep xs)

abbrev IsAtMost : ℕ → List Text → Type 0
IsAtMost n ids = length ids ≤ n

length-held :
    {K : Type 0} (eq : K → K → Bool) (n : ℕ) (rows : List (K × List Text)) (k : K)
    → AllRows (IsAtMost n) rows
    → length (held (find eq rows k)) ≤ n
unfolding held
length-held eq n rows k a = elim (Option-cases (find eq rows k)) [
  | inl e ↦ rw e (omega arith)
  | inr (ids, e) ↦ rw e (AllRows-find (IsAtMost n) eq rows k ids e a)
]

leave-AtMost :
    {K : Type 0} (eq : K → K → Bool) (n : ℕ) (k : K) (id : Text) (rows : List (K × List Text))
    (o : Option (List Text))
    → length (held o) ≤ n
    → AllRows (IsAtMost n) rows
    → AllRows (IsAtMost n) (leave eq k id rows o)
unfolding leave held pop without
leave-AtMost eq n k id rows none h a = a
leave-AtMost eq n k id rows (some ids) h a =
    let short = length-select (λ (i : Text). not (text_eq i id)) ids in
    if_both (AllRows (IsAtMost n)) (is_empty (without id ids)) (pop eq rows k)
      (set eq rows k (without id ids)) (AllRows-select (IsAtMost n) _ rows a)
      (AllRows-set (IsAtMost n) eq rows k (without id ids) (omega (arith, short, h)) a)

-- The caps of the hub's settings.
pub record IsWithin (h : Hub) : Type 0 where
  pub rooms : AllRows (IsAtMost h.max_connections_per_room) h.by_room
  pub members : AllRows (IsAtMost h.max_connections_per_member) h.by_member
  pub queues : AllRows IsBounded h.objects

admit-IsWithin :
    (fresh kind room member : Text) (h : Hub)
    → IsWithin h
    → IsWithin (admit fresh kind room member h).1
unfolding admit
admit-IsWithin fresh kind room member h w =
    let ids = held (find text_eq h.by_room room) in
    let own = held (find pair_eq h.by_member (room, member)) in
    let few = length-held text_eq h.max_connections_per_room h.by_room room w.rooms in
    let fewer =
      length-held pair_eq h.max_connections_per_member h.by_member (room, member) w.members in
    elim (Bool-cases (leb h.max_connections_per_room (length ids))) [
      | inl e ↦ rw e (record {
        rooms =
            AllRows-set (IsAtMost h.max_connections_per_room) text_eq h.by_room room ids few
              w.rooms;
        members = w.members;
        queues = w.queues;
      })
      | inr e ↦ elim (Bool-cases (leb h.max_connections_per_member (length own))) [
        | inl f ↦
            rw (e, f)
              (record {
                rooms =
                    AllRows-set (IsAtMost h.max_connections_per_room) text_eq h.by_room room ids few
                      w.rooms;
                members =
                    AllRows-set (IsAtMost h.max_connections_per_member) pair_eq h.by_member
                      (room, member) own fewer w.members;
                queues = w.queues;
              })
        | inr f ↦
            let room1 : length ids + 1 ≤ h.max_connections_per_room = ground arith in
            let own1 : length own + 1 ≤ h.max_connections_per_member = ground arith in
            rw (e, f)
              (record {
                rooms =
                    AllRows-set (IsAtMost h.max_connections_per_room) text_eq h.by_room room
                      (ids ++ fresh ∷ []) (omega (arith, length-append ids (fresh ∷ []), room1))
                      w.rooms;
                members =
                    AllRows-set (IsAtMost h.max_connections_per_member) pair_eq h.by_member
                      (room, member) (own ++ fresh ∷ [])
                      (omega (arith, length-append own (fresh ∷ []), own1)) w.members;
                queues =
                    AllRows-set IsBounded text_eq h.objects fresh
                      (new_connection fresh kind room member h)
                      (λ pos. unfold new_connection in omega arith) w.queues;
              })
      ]
    ]

release-IsWithin :
    (id : Text) (h : Hub) → IsWithin h → IsWithin (release (find text_eq h.objects id) h)
unfolding release release_open
release-IsWithin id h w = elim (Option-cases (find text_eq h.objects id)) [
  | inl e ↦ rw e w
  | inr (c, e) ↦
      let b = AllRows-find IsBounded text_eq h.objects id c e w.queues in
      let d = record c { closed = true } in
      rw e (
        if_both IsWithin c.closed h (release_open c h) w (record {
          rooms =
              leave-AtMost text_eq h.max_connections_per_room c.room c.id h.by_room
                (find text_eq h.by_room c.room)
                (length-held text_eq h.max_connections_per_room h.by_room c.room w.rooms) w.rooms;
          members =
              leave-AtMost pair_eq h.max_connections_per_member (c.room, c.member) c.id h.by_member
                (find pair_eq h.by_member (c.room, c.member))
                (length-held pair_eq h.max_connections_per_member h.by_member (c.room, c.member)
                  w.members)
                w.members;
          queues =
              AllRows-set IsBounded text_eq h.objects c.id (wake d) (wake-IsBounded d b) w.queues;
        }))
]

offer_all-Bounded :
    (p : Publication) (ids : List Text) (objects : List (Text × Connection))
    → AllRows IsBounded objects
    → AllRows IsBounded (offer_all p ids objects).1
unfolding offer_all offer_object
offer_all-Bounded p [] objects a = a
offer_all-Bounded p (id ∷ ids) objects a =
    let later =
      λ (o : List (Text × Connection)) (b : AllRows IsBounded o). offer_all-Bounded p ids o b in
    elim (Option-cases (find text_eq objects id)) [
      | inl e ↦ rw e (later objects a)
      | inr (c, e) ↦ rw e (
          later (set text_eq objects id (offer p c).1) (
            AllRows-set IsBounded text_eq objects id (offer p c).1
              (offer-IsBounded p c (AllRows-find IsBounded text_eq objects id c e a)) a))
    ]

-- The calls of a hub, and the rounds of the writers of its connections.
pub data Call : Type 0 where
  admitting : Text → Text → Text → Text → Call
  releasing : Text → Call
  publishing : Text → Publication → Call
  pumping : Bool → Text → Call

unfoldable pub perform : Call → Hub → Hub
perform (admitting fresh kind room member) h = (admit fresh kind room member h).1
perform (releasing id) h = release (find text_eq h.objects id) h
perform (publishing room p) h = (publish room p h).1
perform (pumping ok id) h = pump ok id (find text_eq h.objects id) h

unfoldable pub perform_all : List Call → Hub → Hub
perform_all [] h = h
perform_all (c ∷ cs) h = perform_all cs (perform c h)

unfoldable pub new_hub : ℕ → ℕ → ℕ → Hub
new_hub per_room per_member size = record {
  max_connections_per_room = per_room;
  max_connections_per_member = per_member;
  outbound_queue_size = size;
  objects = [];
  by_room = [];
  by_member = [];
  by_id = [];
}

pump-IsWithin :
    (ok : Bool) (id : Text) (h : Hub)
    → IsWithin h
    → IsWithin (pump ok id (find text_eq h.objects id) h)
unfolding pump
pump-IsWithin ok id h w = elim (Option-cases (find text_eq h.objects id)) [
  | inl e ↦ rw e w
  | inr (c, e) ↦ rw e (record {
    rooms = w.rooms;
    members = w.members;
    queues =
        AllRows-set IsBounded text_eq h.objects id _
          (pump_round-IsBounded ok c (AllRows-find IsBounded text_eq h.objects id c e w.queues))
          w.queues;
  })
]

perform-IsWithin : (c : Call) (h : Hub) → IsWithin h → IsWithin (perform c h)
unfolding perform publish
perform-IsWithin (admitting fresh kind room member) h w = admit-IsWithin fresh kind room member h w
perform-IsWithin (releasing id) h w = release-IsWithin id h w
perform-IsWithin (publishing room p) h w = record {
  rooms = w.rooms;
  members = w.members;
  queues = offer_all-Bounded p (held (find text_eq h.by_room room)) h.objects w.queues;
}
perform-IsWithin (pumping ok id) h w = pump-IsWithin ok id h w

from-IsWithin : (cs : List Call) (h : Hub) → IsWithin h → IsWithin (perform_all cs h)
unfolding perform_all
from-IsWithin [] h w = w
from-IsWithin (c ∷ cs) h w = from-IsWithin cs (perform c h) (perform-IsWithin c h w)

-- After any admissions, releases, publications and rounds of the writers, no room and no member has more connections
-- than its cap, and no outbound queue with a capacity outgrows it.
pub perform_all-IsWithin :
    (cs : List Call) (per_room per_member size : ℕ)
    → IsWithin (perform_all cs (new_hub per_room per_member size))
perform_all-IsWithin cs per_room per_member size =
    from-IsWithin cs (new_hub per_room per_member size)
      (unfold new_hub in record { rooms = tt; members = tt; queues = tt })
