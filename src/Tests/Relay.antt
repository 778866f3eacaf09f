-- ===== src/Tests/Relay.antt =====
-- A hub with small queues, a store of a few events, and an invitation.
use openburrow.Prelude.{
  ℕ, ◌+◌, ◌≤◌, ◌≡◌, refl, true, false, ◌&&◌, none, some, List, [], ◌∷◌, Text, codes, text_eq, Table,
  max, if◌then◌else◌, get, save,
}
use openburrow.Hub.{
  event, lag, Connection, is_full, note_seq, seen_seq, enqueue, make_room_for_notice, evict,
  lag_frame,
}
use openburrow.Hub.Members.{Publication, offer, noted, is_excluded}
use openburrow.Hub.Caps.{
  Call, admitting, releasing, publishing, pumping, perform_all, new_hub, IsWithin,
  perform_all-IsWithin,
}
use openburrow.Store.{
  RawEvent, encoded, RelayEvent, append_events, page, tail_events, is_wanted, is_of_session,
  is_of_types, is_ordered, clamp_limit,
}
use openburrow.Store.Replay.{append_events-replay}
use openburrow.Store.Invites.{
  viewer, maintainer, owner, role_rank, Member, Invite, Registry, upsert_member, first,
}
use openburrow.Store.Roles.{rank_of, upsert_member-rank}
use openburrow.Store.Uses.{InviteCall, redeeming, redemptions, budget, redemptions-budget}
use openburrow.Hub.Notice.{offer-lag}

abbrev news : ℕ → Publication
news n = record {
  kind = codes "events";
  frame = event ((48 + n) ∷ []);
  exclude = none;
  origin = some (codes "repo", n);
}

abbrev calls : List Call
calls =
    admitting (codes "1") (codes "events") (codes "room") (codes "ann")
    ∷ admitting (codes "2") (codes "events") (codes "room") (codes "ann")
    ∷ admitting (codes "3") (codes "events") (codes "room") (codes "bob")
    ∷ publishing (codes "room") (news 1)
    ∷ publishing (codes "room") (news 2)
    ∷ publishing (codes "room") (news 3)
    ∷ pumping true (codes "1")
    ∷ releasing (codes "1")
    ∷ []

perform_all-IsWithin_example : IsWithin (perform_all calls (new_hub 2 1 2))
perform_all-IsWithin_example = perform_all-IsWithin calls 2 1 2

abbrev slow : Connection
slow = record {
  id = codes "1";
  kind = codes "events";
  room = codes "room";
  member = codes "ann";
  capacity = 2;
  queue = event (codes "a") ∷ event (codes "b") ∷ [];
  sent = 0;
  dropped = 0;
  lagged = false;
  notice_queued = false;
  closed = false;
  last_seq = (codes "repo", 2) ∷ [];
}

abbrev stored : ℕ → RelayEvent
stored n = record {
  id = (48 + n) ∷ [];
  room_id = codes "room";
  origin_repo = codes "repo";
  origin_seq = n;
  event_type = codes "task.working";
  session_id = none;
  size = 2;
  occurred_at = 5;
  received_at = 6;
}

offer-lag_example :
    ((offer (news 3) slow).0 ≡ false)
    × (resume : Table ℕ) × ((offer (news 3) slow).1.queue ≡ event (codes "b") ∷ lag 2 resume ∷ [])
    × (3 ≤ seen_seq (get resume (codes "repo")))
unfolding text_eq is_full is_excluded
offer-lag_example =
    offer-lag (news 3) slow (codes "repo") (codes "a") 3 (event (codes "b") ∷ []) refl refl refl
      refl refl refl

-- What the client is told: to go on behind the event that it was not given.
told : (offer (news 3) slow).1.queue ≡ event (codes "b") ∷ lag 2 ((codes "repo", 3) ∷ []) ∷ []
unfolding offer noted note_seq seen_seq enqueue is_full make_room_for_notice evict lag_frame text_eq
    get save is_excluded
told = refl

abbrev raw : ℕ → RawEvent
raw n = record {
  origin_repo = codes "repo";
  origin_seq = some n;
  event_type = codes "task.working";
  payload = encoded 2;
  occurred_at = some 5;
  session_id = none;
}

abbrev batch : List RawEvent
batch = raw 1 ∷ raw 2 ∷ raw 1 ∷ raw 0 ∷ []

append_events-replay_example :
    ((append_events 9
        (λ i. (65 + i) ∷ [])
        (codes "room")
        batch
        (append_events 8 (λ i. (97 + i) ∷ []) (codes "room") batch []).1).0.accepted_events
      ≡ [])
    × ((append_events 9
          (λ i. (65 + i) ∷ [])
          (codes "room")
          batch
          (append_events 8 (λ i. (97 + i) ∷ []) (codes "room") batch []).1).1
        ≡ (append_events 8 (λ i. (97 + i) ∷ []) (codes "room") batch []).1)
append_events-replay_example =
    append_events-replay 8 9 (λ i. (97 + i) ∷ []) (λ i. (65 + i) ∷ []) (codes "room") batch []

abbrev table : List RelayEvent
table = stored 1 ∷ stored 2 ∷ stored 3 ∷ []

page_given : tail_events (codes "room") [] 2 none [] table ≡ some (stored 1 ∷ stored 2 ∷ [])
unfolding tail_events page is_wanted is_of_session is_of_types is_ordered clamp_limit text_eq
page_given = refl

page_refused : tail_events (codes "room") ((codes "repo", 1) ∷ []) 10 none [] table ≡ none
unfolding tail_events
page_refused = refl

abbrev invite : Invite
invite = record {
  id = codes "i";
  room_id = codes "room";
  token_hash = codes "h";
  role = maintainer;
  created_at = 0;
  created_by = codes "ann";
  expires_at = 100;
  max_uses = 2;
  uses = 0;
  revoked = false;
}

abbrev registry : Registry
registry = record { rooms = codes "room" ∷ []; members = []; invites = invite ∷ [] }

abbrev redeem : Text → InviteCall
redeem subject = redeeming (codes "m") 5 (codes "h") subject []

redemptions-budget_example :
    redemptions
      (codes "h")
      (redeem (codes "bob") ∷ redeem (codes "cy") ∷ redeem (codes "di") ∷ [])
      registry
    ≤ budget invite
unfolding first text_eq
redemptions-budget_example =
    redemptions-budget (codes "h")
      (redeem (codes "bob") ∷ redeem (codes "cy") ∷ redeem (codes "di") ∷ []) registry invite refl

abbrev bob : Member
bob = record {
  id = codes "m";
  room_id = codes "room";
  subject = codes "bob";
  display_name = codes "Bob";
  role = owner;
  joined_at = 1;
  last_seen_at = 1;
}

upsert_member-rank_example :
    rank_of
      (codes "room")
      (codes "bob")
      (upsert_member (codes "n") 7 (codes "room") (codes "bob") [] viewer (bob ∷ []))
    ≡ (if text_eq (codes "room") (codes "room") && text_eq (codes "bob") (codes "bob")
        then max (rank_of (codes "room") (codes "bob") (bob ∷ [])) (role_rank viewer)
        else rank_of (codes "room") (codes "bob") (bob ∷ []))
upsert_member-rank_example =
    upsert_member-rank (codes "n") 7 (codes "room") (codes "bob") [] viewer (bob ∷ [])
      (codes "room") (codes "bob")
