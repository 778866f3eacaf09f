-- ===== src/Tests/Claims.antt =====
-- Claims on paths.
use openburrow.Prelude.{
  all, ◌≡◌, false, refl, Bool, true, false, none, some, List, [], ◌∷◌, Text, codes, text_eq, Table,
  get, save,
}
use openburrow.Claims.{
  ClaimKind, file, Claim, covers, overlaps, is_live, is_step, is_tree, active_claims,
  conflicting_claims, Ask, new_claim, for_step, for_file, claim_create, decide, save_claim,
  save_after, breaks_unique, kind_index, status_index, release, claim_release, ClaimStatus,
}
use openburrow.Claims.Glob.{
  fnmatch, tokens, bracket, body, close, matching, some_suffix, first_and_rest, fits, member,
}
use openburrow.Claims.Exclusion.{IsExclusive}
use openburrow.Claims.Force.{claim_create-forced}
use openburrow.Claims.Unique.{claim_release-again}
use openburrow.Claims.Calls.{
  is_calm, Call, claiming, releasing, listing, perform_all, perform_all-IsExclusive,
}

abbrev ask : Text → ClaimKind → Text → Bool → Ask
ask lane kind target force = record {
  session_id = codes "s";
  lane_id = lane;
  owner = codes "o";
  kind = kind;
  target = target;
  intent = [];
  ttl_seconds = 60;
  force = force;
  by = codes "human";
  reason = [];
}

globs : fnmatch (codes "src/api/x.py") (codes "src/*/[!a-w]?[pq]y") ≡ true
unfolding fnmatch tokens bracket body close matching some_suffix first_and_rest fits member
globs = refl

no_glob : fnmatch (codes "src/a.py") (codes "src/[b-z]*") ≡ false
unfolding fnmatch tokens bracket body close matching some_suffix first_and_rest fits member
no_glob = refl

abbrev calls : List Call
calls =
    claiming 10 (codes "human") (codes "1") (ask (codes "a") file (codes "x") false)
    ∷ claiming 11 (codes "human") (codes "2") (ask (codes "b") file (codes "y") false)
    ∷ claiming 12 (codes "human") (codes "3") (ask (codes "c") file (codes "x") false)
    ∷ releasing 13 (codes "s") (codes "y") []
    ∷ listing 14
    ∷ []

calls_calm : all is_calm calls ≡ true
unfolding is_calm
calls_calm = refl

perform_all-IsExclusive_example : IsExclusive fnmatch (perform_all fnmatch calls [])
perform_all-IsExclusive_example = perform_all-IsExclusive fnmatch calls calls_calm

abbrev held : Table Claim
held = perform_all fnmatch calls []

abbrev first : Claim
first = new_claim 10 (codes "1") (ask (codes "a") file (codes "x") false)

abbrev second : Claim
second = new_claim 10 (codes "2") (ask (codes "b") file (codes "y") false)

abbrev rows : Table Claim
rows = (codes "1", first) ∷ (codes "2", second) ∷ []

abbrev taking : Ask
taking = ask (codes "c") file (codes "*") true

abbrev taken : Table Claim
taken = (claim_create fnmatch 15 (codes "human") (codes "3") taking rows).1

claim_create-forced_example :
    (get taken (codes "1") ≡ some (release 15 (codes "force-claimed by human: ") first))
    × ((k : Text)
        → text_eq (codes "1") k ≡ false
        → text_eq (codes "3") k ≡ false
        → get taken k ≡ get rows k)
    × (¬ IsExclusive fnmatch taken)
unfolding new_claim for_step for_file is_step is_live is_tree get text_eq conflicting_claims
    active_claims overlaps covers fnmatch tokens bracket matching some_suffix first_and_rest fits
    claim_create decide save_claim save_after breaks_unique kind_index status_index release save
claim_create-forced_example =
    claim_create-forced fnmatch 15 (codes "human") (codes "3") taking rows first second [] refl refl
      refl refl refl

-- A resource that is released, claimed again and released again breaks the constraint.
abbrev again : Table Claim
again =
    (codes "1", record first { status = ClaimStatus.released })
    ∷ (codes "4", record first { id = codes "4" })
    ∷ []

claim_release-again_example : claim_release 20 (codes "s") (codes "x") [] again ≡ (none, again)
unfolding active_claims is_live new_claim for_file is_step get text_eq
claim_release-again_example =
    claim_release-again 20 (codes "s") (codes "x") [] (codes "1") (record first { id = codes "4" })
      (record first { status = ClaimStatus.released }) [] [] again refl refl refl refl refl refl
      refl refl refl
