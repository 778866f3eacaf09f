-- ===== src/Hub/Members.antt =====
-- `Hub` of packages/openburrow-relay/src/openburrow/relay/hub.py. The connections are objects that the indexes share, so
-- that they stand in a table of objects, and the indexes hold their identifiers.
use openburrow.Prelude.{
  ℕ, ◌+◌, Bool, true, false, not, ◌&&◌, ◌||◌, Option, none, some, List, [], ◌∷◌, ◌++◌, Text,
  text_eq, length, is_empty, select, if◌then◌else◌, leb,
}
use openburrow.Hub.{Frame, sentinel, Connection, note_seq, is_full, put, enqueue, pump_round}

-- A dict, by the equality of its keys.
module _ {K : Type 0} (eq : K → K → Bool) {V : Type 0} where
  unfoldable pub find : List (K × V) → K → Option V
  find [] k = none
  find ((j, v) ∷ rows) k = if eq j k then some v else find rows k

  unfoldable pub set : List (K × V) → K → V → List (K × V)
  set [] k v = (k, v) ∷ []
  set ((j, w) ∷ rows) k v =
      let rest = set rows k v in if eq j k then (j, v) ∷ rows else (j, w) ∷ rest

  unfoldable pub pop : List (K × V) → K → List (K × V)
  pop rows k = select (λ (row : K × V). not (eq row.0 k)) rows

unfoldable pub pair_eq : Text × Text → Text × Text → Bool
pair_eq (a, b) (c, d) = text_eq a c && text_eq b d

pub record Hub : Type 0 where
  pub max_connections_per_room : ℕ
  pub max_connections_per_member : ℕ
  pub outbound_queue_size : ℕ
  pub objects : List (Text × Connection)
  pub by_room : List (Text × List Text)  -- _by_room
  pub by_member : List ((Text × Text) × List Text)  -- _by_member
  pub by_id : List Text  -- _by_id

-- `setdefault`, and `get` with the empty default
unfoldable pub held : Option (List Text) → List Text
held none = []
held (some ids) = ids

pub data Admission : Type 0 where
  room_full member_limit : Admission
  admitted : Connection → Admission

unfoldable pub new_connection : Text → Text → Text → Text → Hub → Connection
new_connection fresh kind room member h = record {
  id = fresh;
  kind = kind;
  room = room;
  member = member;
  capacity = h.outbound_queue_size;
  queue = [];
  sent = 0;
  dropped = 0;
  lagged = false;
  notice_queued = false;
  closed = false;
  last_seq = [];
}

-- The entries that `setdefault` makes stay where the connection is refused.
unfoldable pub admit : Text → Text → Text → Text → Hub → Admission × Hub
admit fresh kind room member h =
    let ids = held (find text_eq h.by_room room) in
    let h1 = record h { by_room = set text_eq h.by_room room ids } in
    if leb h.max_connections_per_room (length ids)
    then (room_full, h1)
    else let own = held (find pair_eq h.by_member (room, member)) in
      if leb h.max_connections_per_member (length own)
      then (member_limit, record h1 { by_member = set pair_eq h.by_member (room, member) own })
      else let c = new_connection fresh kind room member h in
        (
          admitted c,
          record h {
            objects = set text_eq h.objects fresh c;
            by_room = set text_eq h.by_room room (ids ++ fresh ∷ []);
            by_member = set pair_eq h.by_member (room, member) (own ++ fresh ∷ []);
            by_id = h.by_id ++ fresh ∷ [];
          },
        )

unfoldable pub without : Text → List Text → List Text
without id ids = select (λ (i : Text). not (text_eq i id)) ids

-- An identifier leaves the entry of a key, and an entry left empty goes.
module _ {K : Type 0} (eq : K → K → Bool) where
  unfoldable pub leave : K → Text → List (K × List Text) → Option (List Text) → List (K × List Text)
  leave k id rows none = rows
  leave k id rows (some ids) =
      if is_empty (without id ids) then pop eq rows k else set eq rows k (without id ids)

-- The sentinel wakes the writer, where the queue has room.
unfoldable pub wake : Connection → Connection
wake c = if is_full c then c else put sentinel c

unfoldable pub release_open : Connection → Hub → Hub
release_open c h = record h {
  objects = set text_eq h.objects c.id (wake (record c { closed = true }));
  by_room = leave text_eq c.room c.id h.by_room (find text_eq h.by_room c.room);
  by_member =
      leave pair_eq (c.room, c.member) c.id h.by_member
        (find pair_eq h.by_member (c.room, c.member));
  by_id = without c.id h.by_id;
}

-- `release`, of an object that the caller holds
unfoldable pub release : Option Connection → Hub → Hub
release none h = h
release (some c) h = if c.closed then h else release_open c h

pub record Publication : Type 0 where
  pub kind : Text
  pub frame : Frame
  pub exclude : Option Text
  pub origin : Option (Text × ℕ)

unfoldable pub is_excluded : Option Text → Text → Bool
is_excluded none id = false
is_excluded (some x) id = text_eq id x

unfoldable pub noted : Option (Text × ℕ) → Connection → Connection
noted none c = c
noted (some (repo, seq)) c = note_seq repo seq c

-- What a publication does to one connection.
unfoldable pub offer : Publication → Connection → Bool × Connection
offer p c =
    if not (text_eq c.kind p.kind) || (c.closed || is_excluded p.exclude c.id)
    then (false, c)
    else enqueue p.frame (noted p.origin c)

unfoldable pub offer_object :
    Publication → Text → Option Connection → List (Text × Connection) → ℕ × List (Text × Connection)
offer_object p id none objects = (0, objects)
offer_object p id (some c) objects =
    let (ok, c') = offer p c in (if ok then 1 else 0, set text_eq objects id c')

unfoldable pub offer_all :
    Publication → List Text → List (Text × Connection) → ℕ × List (Text × Connection)
offer_all p [] objects = (0, objects)
offer_all p (id ∷ ids) objects =
    let (n, objects1) = offer_object p id (find text_eq objects id) objects in
    let (m, objects2) = offer_all p ids objects1 in (n + m, objects2)

unfoldable pub publish : Text → Publication → Hub → ℕ × Hub
publish room p h =
    let (n, objects) = offer_all p (held (find text_eq h.by_room room)) h.objects in
    (n, record h { objects = objects })

-- A round of the pump of a connection, which is `send` on its socket.
unfoldable pub pump : Bool → Text → Option Connection → Hub → Hub
pump ok id none h = h
pump ok id (some c) h = record h { objects = set text_eq h.objects id (pump_round ok c).1 }
