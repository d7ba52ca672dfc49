-- ===== src/Session/Client/Finish.antt =====
-- The six rounds of answers that take a joined trade to its end, as the packets that the hub receives.
use xhubv.Prelude.{
  ◌≢◌, refl, ap, subst, ◌∙◌, arith, List, [], ◌∷◌, ℕ, Bool, All, Option, some, Bytes, ℕ-key, ◌>>=◌,
}
use xhubv.Transaction.{State, Transaction, increase_state_counter}
use xhubv.Transaction.Phases.{
  Phase, joining, holding, initializing, creating, signing, commiting, hear,
}
use xhubv.Transaction.Protocol.{
  IsFresh, Rounds, IsComplete, run_rounds, run_rounds_finishes, after_phase,
}
use xhubv.Transaction.Currencies.{FitsFields, increase-FitsFields}
use xhubv.Transaction.Core.{core, increase-IsOpen}
use xhubv.Session.{Node}
use xhubv.Session.Updates.{Yields}
use xhubv.Session.Client.Protocol.{Say, Fits, Serves, IsSteady, hear_answer, hear_answer-Serves}
use xhubv.Session.Client.Round.{Holds}

-- The addresses of those who speak.
unfoldable pub speakers : List Say → List Bytes
speakers [] = []
speakers (s ∷ says) = s.from ∷ speakers says

-- What is said in the six phases.
pub record Talk : Type 0 where
  pub hold_applied : List Say
  pub initialized : List Say
  pub created : List Say
  pub signed : List Say
  pub commited : List Say
  pub confirmed : List Say

abbrev pub talk_speakers : Talk → Rounds
talk_speakers k = record {
  hold_applied = speakers k.hold_applied;
  initialized = speakers k.initialized;
  created = speakers k.created;
  signed = speakers k.signed;
  commited = speakers k.commited;
  confirmed = speakers k.confirmed;
}

pub record TalkFits (hub : Bytes) (id : ℕ) (k : Talk) : Type 0 where
  pub hold_applied : All (Fits hub id) k.hold_applied
  pub initialized : All (Fits hub id) k.initialized
  pub created : All (Fits hub id) k.created
  pub signed : All (Fits hub id) k.signed
  pub commited : All (Fits hub id) k.commited
  pub confirmed : All (Fits hub id) k.confirmed

increase-IsSteady :
    (s : State) (from : Bytes) (t : Transaction)
    → IsSteady t
    → IsSteady (increase_state_counter s from t).0
increase-IsSteady s from t k = record {
  fits = increase-FitsFields s from t k.fits;
  open' = increase-IsOpen s from t k.open';
}

hear-IsSteady :
    (s : State) (froms : List Bytes) (t : Transaction) → IsSteady t → IsSteady (hear s froms t)
unfolding hear
hear-IsSteady s [] t k = k
hear-IsSteady s (from ∷ froms) t k = hear-IsSteady s froms _ (increase-IsSteady s from t k)

module _ (hub : Bytes) (id : ℕ) where
  -- The answers of one phase, one after the other.
  unfoldable pub hear_round :
      {s n : State} {src : Bool} → Phase s n src → List Say → Node → Option Node
  hear_round p [] n = some n
  hear_round p (s ∷ says) n = do (m, done) ← hear_answer hub id p s n; hear_round p says m

  unfoldable pub hear_talk : Talk → Node → Option Node
  hear_talk k n =
      hear_round joining k.hold_applied n
      >>= hear_round holding k.initialized
      >>= hear_round initializing k.created
      >>= hear_round creating k.signed
      >>= hear_round signing k.commited
      >>= hear_round commiting k.confirmed

  -- The hub after some packets: a trade that has taken the steps of the counter.
  abbrev At : Transaction → Option Node → Type 0
  At u r = IsSteady u × Yields (Serves id u) r

  hear_round-Serves :
      {s n : State} {src : Bool} (p : Phase s n src) (says : List Say) (u : Transaction)
      (node : Node)
      → All (Fits hub id) says
      → IsSteady u
      → Serves id u node
      → Yields (Serves id (hear s (speakers says) u)) (hear_round p says node)
  unfolding hear_round hear speakers
  hear_round-Serves p [] u node f k v = (node, refl, v)
  hear_round-Serves {s} p (say ∷ says) u node f k v =
      let step = hear_answer-Serves hub id p say u node f.0 k v in
      let rest =
        hear_round-Serves p says (increase_state_counter s say.from u).0 step.0.0 f.1
          (increase-IsSteady s say.from u k) step.2 in
      (rest.0, ap (λ o. o >>= λ x. hear_round p says x.0) step.1 ∙ rest.1, rest.2)

  -- One more round.
  and_round :
      {s n : State} {src : Bool} (p : Phase s n src) (says : List Say) (u : Transaction)
      (r : Option Node)
      → All (Fits hub id) says
      → At u r
      → At (hear s (speakers says) u) (r >>= hear_round p says)
  and_round {s} p says u r f (k, (m, e, v)) =
      let next = hear_round-Serves p says u m f k v in
      (
        hear-IsSteady s (speakers says) u k,
        (next.0, ap (λ o. o >>= hear_round p says) e ∙ next.1, next.2),
      )

  hear_talk-Serves :
      (k : Talk) (u : Transaction) (n : Node)
      → TalkFits hub id k
      → IsSteady u
      → Serves id u n
      → Yields (Serves id (run_rounds (talk_speakers k) u)) (hear_talk k n)
  unfolding run_rounds hear_talk
  hear_talk-Serves k u n f steady v =
      (and_round commiting k.confirmed _ _ f.confirmed (
        and_round signing k.commited _ _ f.commited (
          and_round creating k.signed _ _ f.signed (
            and_round initializing k.created _ _ f.created (
              and_round holding k.initialized _ _ f.initialized (
                and_round joining k.hold_applied u (some n) f.hold_applied
                  (steady, (n, refl, v)))))))).1

  core-IsComplete : (t : Transaction) (r : Rounds) → IsComplete t r → IsComplete (core t) r
  core-IsComplete t r c = record {
    hold_applied = c.hold_applied;
    initialized = c.initialized;
    created = c.created;
    signed = c.signed;
    commited = c.commited;
    confirmed = c.confirmed;
  }

  fresh-IsSteady : (t : Transaction) → IsFresh State.tr_joined t → FitsFields t → IsSteady (core t)
  fresh-IsSteady t fresh fits = record {
    fits = record { source = fits.source; dest = fits.dest };
    open' = ground arith;
  }

  -- A hub that holds a joined trade of two clients whose source addresses differ and whose
  -- destination addresses differ, neither of which has been heard, and that receives the six
  -- rounds of answers as packets (hold apply, initialized, created, signed, commited,
  -- confirmed), each round in any order and number and also from strangers, as long as both
  -- parties of the round are among its senders, stays inside every packet and ends with the
  -- trade finished under its id; but for its time, its payments and their hashes nothing else of
  -- the trade has changed. The exchange is enabled, and is so afterwards. Addresses have 20
  -- bytes, the currencies at most eight; the texts of a payment and its refund have no NUL and
  -- together less than 2 ^ 31 bytes; the id and the hashes fit 32 bytes.
  pub hear_talk_finishes :
      (k : Talk) (t : Transaction) (n : Node)
      → IsFresh State.tr_joined t
      → t.first.source ≢ t.second.source
      → t.first.dest ≢ t.second.dest
      → IsComplete t (talk_speakers k)
      → TalkFits hub id k
      → FitsFields t
      → Holds id t n
      → Yields (Serves id (core (after_phase State.tr_finished t))) (hear_talk k n)
  hear_talk_finishes k t n fresh ds dd c f fits h =
      subst (λ u. Yields (Serves id u) (hear_talk k n))
        (run_rounds_finishes (talk_speakers k) (core t) fresh ds dd
          (core-IsComplete t (talk_speakers k) c))
        (hear_talk-Serves k (core t) n f (fresh-IsSteady t fresh fits)
          (record { trade = t; stands = h.stands; alike = refl; on = h.on }))
