-- ===== src/Store/Replay.antt =====
-- A batch that is sent again adds nothing.
use openburrow.Prelude.{
  ℕ, zero, suc, ◌+◌, ◌≡◌, refl, sym, ap, ◌∙◌, Bool, true, false, Option, none, some, List, [], ◌∷◌,
  ◌++◌, Text, text_eq_iff, length, is_empty, any, any-append, if◌then◌else◌, ltb, Bool-cases, arith,
  inl, inr,
}
use openburrow.Store.{
  RawEvent, RelayEvent, Rejection, Payload, not_an_object, not_serialisable, encoded, Normalised,
  row, rejected, max_payload, max_events, dated, sized, numbered, normalise_event, same_origin,
  sort_in, sort_out, insert_rows, append_rows, append_events,
}

abbrev pub is_stored : RelayEvent → List RelayEvent → Bool
is_stored r table = any (same_origin r) table

-- Rows of the same room, origin and number.
abbrev IsAlike : RelayEvent → RelayEvent → Type 0
IsAlike a b =
    (a.room_id ≡ b.room_id) × (a.origin_repo ≡ b.origin_repo) × (a.origin_seq ≡ b.origin_seq)

abbrev AreAlike : List RelayEvent → List RelayEvent → Type 0
AreAlike [] [] = Unit
AreAlike [] (b ∷ ys) = ⊥
AreAlike (a ∷ xs) [] = ⊥
AreAlike (a ∷ xs) (b ∷ ys) = IsAlike a b × AreAlike xs ys

alike_stored :
    (a b : RelayEvent) (table : List RelayEvent)
    → IsAlike a b
    → is_stored a table ≡ is_stored b table
unfolding same_origin
alike_stored a b [] h = refl
alike_stored a b (e ∷ es) (p, q, r) = rw (p, q, r, alike_stored a b es (p, q, r)) refl

same_origin_refl : (r : RelayEvent) → same_origin r r ≡ true
unfolding same_origin
same_origin_refl r =
    ground (arith, text_eq_iff r.room_id r.room_id, text_eq_iff r.origin_repo r.origin_repo)

-- What is stored stays so.
insert_rows-keeps :
    (rows table : List RelayEvent) (q : RelayEvent)
    → is_stored q table ≡ true
    → is_stored q (insert_rows rows table).1 ≡ true
unfolding insert_rows
insert_rows-keeps [] table q h = h
insert_rows-keeps (r ∷ rows) table q h =
    let later = λ (t : List RelayEvent) (k : is_stored q t ≡ true). insert_rows-keeps rows t q k in
    elim (Bool-cases (is_stored r table)) [
      | inl e ↦ rw e (later table h)
      | inr e ↦
          rw e (
            later (table ++ r ∷ []) (any-append (same_origin q) table (r ∷ []) ∙ ground (arith, h)))
    ]

abbrev AllStored : List RelayEvent → List RelayEvent → Type 0
AllStored [] table = Unit
AllStored (r ∷ rows) table = (is_stored r table ≡ true) × AllStored rows table

insert_rows-AllStored : (rows table : List RelayEvent) → AllStored rows (insert_rows rows table).1
unfolding insert_rows
insert_rows-AllStored [] table = tt
insert_rows-AllStored (r ∷ rows) table =
    let later = λ (t : List RelayEvent). insert_rows-AllStored rows t in
    elim (Bool-cases (is_stored r table)) [
      | inl e ↦ rw e (insert_rows-keeps rows table r e, later table)
      | inr e ↦
          let here : is_stored r (table ++ r ∷ []) ≡ true =
            any-append (same_origin r) table (r ∷ []) ∙ ground (arith, same_origin_refl r) in
          rw e (insert_rows-keeps rows (table ++ r ∷ []) r here, later (table ++ r ∷ []))
    ]

insert_rows-none :
    (rows again table : List RelayEvent)
    → AreAlike rows again
    → AllStored rows table
    → insert_rows again table ≡ ([], table)
unfolding insert_rows
insert_rows-none [] [] table a s = refl
insert_rows-none [] (b ∷ again) table a s = absurd a
insert_rows-none (r ∷ rows) [] table a s = absurd a
insert_rows-none (r ∷ rows) (b ∷ again) table (a, xs) (s, ss) =
    rw (sym (alike_stored r b table a) ∙ s) (insert_rows-none rows again table xs ss)

-- Two readings of one event agree on whether it is rejected and why, and on its origin.
abbrev AreSame : Normalised → Normalised → Type 0
AreSame (row a) (row b) = IsAlike a b
AreSame (row a) (rejected e) = ⊥
AreSame (rejected e) (row b) = ⊥
AreSame (rejected e) (rejected f) = e ≡ f

same-if :
    (b : Bool) (e : Rejection) (x y : Normalised)
    → AreSame x y
    → AreSame (if b then rejected e else x) (if b then rejected e else y)
same-if true e x y h = refl
same-if false e x y h = h

module _ (now now' : ℕ) (room id id' : Text) (raw : RawEvent) where
  same-dated :
      (seq size : ℕ) (at : Option ℕ)
      → AreSame (dated now room id raw seq size at) (dated now' room id' raw seq size at)
  unfolding dated
  same-dated seq size none = refl
  same-dated seq size (some t) = (refl, refl, refl)

  same-sized :
      (seq : ℕ) (p : Payload)
      → AreSame (sized now room id raw seq p) (sized now' room id' raw seq p)
  unfolding sized
  same-sized seq not_an_object = refl
  same-sized seq not_serialisable = refl
  same-sized seq (encoded n) =
      same-if (ltb max_payload n) _ (dated now room id raw seq n raw.occurred_at)
        (dated now' room id' raw seq n raw.occurred_at) (same-dated seq n raw.occurred_at)

  same-numbered :
      (o : Option ℕ) → AreSame (numbered now room id raw o) (numbered now' room id' raw o)
  unfolding numbered
  same-numbered none = refl
  same-numbered (some zero) = refl
  same-numbered (some (suc n)) =
      same-if (is_empty raw.event_type) _ (sized now room id raw (suc n) raw.payload)
        (sized now' room id' raw (suc n) raw.payload) (same-sized (suc n) raw.payload)

  same-normalise_event :
      AreSame (normalise_event now room id raw) (normalise_event now' room id' raw)
  unfolding normalise_event
  same-normalise_event =
      same-if (is_empty raw.origin_repo) _ (numbered now room id raw raw.origin_seq)
        (numbered now' room id' raw raw.origin_seq) (same-numbered raw.origin_seq)

sort_in-alike :
    (n m : Normalised) (p q : List Rejection × List RelayEvent)
    → AreSame n m
    → (p.0 ≡ q.0) × AreAlike p.1 q.1
    → ((sort_in n p).0 ≡ (sort_in m q).0) × AreAlike (sort_in n p).1 (sort_in m q).1
sort_in-alike (row a) (row b) (x, xs) (y, ys) h (e, g) = (e, (h, g))
sort_in-alike (row a) (rejected f) (x, xs) (y, ys) h (e, g) = absurd h
sort_in-alike (rejected f) (row b) (x, xs) (y, ys) h (e, g) = absurd h
sort_in-alike (rejected f) (rejected k) (x, xs) (y, ys) h (e, g) =
    (ap (λ z. z ∷ x) h ∙ ap (λ z. k ∷ z) e, g)

sort_out-alike :
    (now now' : ℕ) (fresh fresh' : ℕ → Text) (room : Text) (i : ℕ) (raws : List RawEvent)
    → ((sort_out now fresh room i raws).0 ≡ (sort_out now' fresh' room i raws).0)
      × AreAlike (sort_out now fresh room i raws).1 (sort_out now' fresh' room i raws).1
unfolding sort_out
sort_out-alike now now' fresh fresh' room i [] = (refl, tt)
sort_out-alike now now' fresh fresh' room i (raw ∷ raws) =
    (sort_in-alike (normalise_event now room (fresh i) raw)
      (normalise_event now' room (fresh' i) raw) (sort_out now fresh room (i + 1) raws)
      (sort_out now' fresh' room (i + 1) raws)
      (same-normalise_event now now' room (fresh i) (fresh' i) raw)
      (sort_out-alike now now' fresh fresh' room (i + 1) raws))

-- A batch that a daemon sends again, at another time and with other identifiers, is accepted as nothing new: no event
-- is stored, and none is to be fanned out.
pub append_events-replay :
    (now now' : ℕ) (fresh fresh' : ℕ → Text) (room : Text) (raws : List RawEvent)
    (table : List RelayEvent)
    → let stored = (append_events now fresh room raws table).1 in
      ((append_events now' fresh' room raws stored).0.accepted_events ≡ [])
      × ((append_events now' fresh' room raws stored).1 ≡ stored)
unfolding append_events append_rows
append_events-replay now now' fresh fresh' room raws table =
    let rows = (sort_out now fresh room 0 raws).1 in
    let again = (sort_out now' fresh' room 0 raws).1 in
    let stored = (insert_rows rows table).1 in
    let nothing =
      insert_rows-none rows again stored (sort_out-alike now now' fresh fresh' room 0 raws).1
        (insert_rows-AllStored rows table) in
    elim (Bool-cases (ltb max_events (length raws))) [
      | inl e ↦ rw e (refl, refl)
      | inr e ↦ rw e (rw nothing (refl, refl))
    ]
