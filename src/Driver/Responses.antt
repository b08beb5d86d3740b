-- ===== src/Driver/Responses.antt =====
-- How the driver of PicoDB/pico/pico_client.h finds the reply to a request.
use pico_db.Prelude.{
  ℕ, ◌*◌, ◌<◌, ◌≡◌, refl, ap, sym, ◌∙◌, ◌≢◌, ◌⊎◌, inl, inr, Bool, true, false, List, [], ◌∷◌, ◌++◌,
  All, Option, none, some, returns, waits, returns-injective, text_eq, text_eq→≡, ne→text_eq,
  lt→leb, text_eq_refl, leb, Bool-cases,
}
use pico_db.Queue.Ends.{last?, last?-snoc}
use pico_db.Queue.Vector.{peek}
use pico_db.Message.{Message, Libraries}
use pico_db.Message.Constructors.{reply_message}
use pico_db.Driver.{Driver, Response}
use pico_db.Driver.Order.{IsOrdered, arrive-IsOrdered, remove_response-back}
use pico_db.Driver.Requests.{
  Turn, matching, arrive, look, remove_response, timeout_response, get_the_response_of_request,
  nanoseconds,
}

look_locked :
    (msg : Message) (q : List Response) → look true msg q ≡ returns (matching msg (last? q))
unfolding look peek
look_locked msg [] = refl
look_locked msg (r ∷ q) = refl

look_unlocked : (msg : Message) (q : List Response) → look false msg q ≡ returns none
unfolding look peek
look_unlocked msg [] = refl
look_unlocked msg (r ∷ q) = refl

matching-cases :
    (msg : Message) (o : Option Response)
    → (matching msg o ≡ none)
      ⊎ ((r : Response) × (matching msg o ≡ some r) × (r.1.message_id ≡ msg.message_id))
matching-cases msg none = inl refl
matching-cases msg (some r) = elim (Bool-cases (text_eq r.1.message_id msg.message_id)) [
  | inl t ↦ inr (r, rw t refl, text_eq→≡ r.1.message_id msg.message_id t)
  | inr f ↦ inl (rw f refl)
]

-- One round ends with a response that has the id of the request, or goes on.
look-cases :
    (locked : Bool) (msg : Message) (q : List Response)
    → (look locked msg q ≡ returns none)
      ⊎ ((r : Response) × (look locked msg q ≡ returns (some r))
          × (r.1.message_id ≡ msg.message_id))
look-cases false msg q = inl (look_unlocked msg q)
look-cases true msg q = elim (matching-cases msg (last? q)) [
  | inl e ↦ inl (look_locked msg q ∙ ap returns e)
  | inr (r, e, id) ↦ inr (r, look_locked msg q ∙ ap returns e, id)
]

module _ (lib : Libraries) where
  timeout_response-id : (msg : Message) → (timeout_response lib msg).message_id ≡ msg.message_id
  unfolding timeout_response reply_message
  timeout_response-id msg = refl

  module _ (timeout elapsed : ℕ) (t : Turn) (ts : List Turn) (msg : Message) (d : Driver) where
    found_lem :
        (r : Response)
        → look t.locked msg (arrive t.arrived d).response_queue ≡ returns (some r)
        → get_the_response_of_request lib timeout elapsed (t ∷ ts) msg d
          ≡ returns (r.1, remove_response r (arrive t.arrived d))
    unfolding get_the_response_of_request
    found_lem r e = rw e refl

    over_lem :
        look t.locked msg (arrive t.arrived d).response_queue ≡ returns none
        → leb (timeout * nanoseconds) elapsed ≡ true
        → get_the_response_of_request lib timeout elapsed (t ∷ ts) msg d
          ≡ returns (timeout_response lib msg, arrive t.arrived d)
    unfolding get_the_response_of_request
    over_lem e over = rw e (rw over refl)

    more_lem :
        look t.locked msg (arrive t.arrived d).response_queue ≡ returns none
        → leb (timeout * nanoseconds) elapsed ≡ false
        → get_the_response_of_request lib timeout elapsed (t ∷ ts) msg d
          ≡ get_the_response_of_request lib timeout elapsed ts msg (arrive t.arrived d)
    unfolding get_the_response_of_request
    more_lem e more = rw e (rw more refl)

  -- Whatever `getTheResponseOfRequest` returns has the id of the request.
  pub get_the_response_of_request-id :
      (timeout elapsed : ℕ) (turns : List Turn) (msg : Message) (d : Driver) (m : Message)
      (d' : Driver)
      → get_the_response_of_request lib timeout elapsed turns msg d ≡ returns (m, d')
      → m.message_id ≡ msg.message_id
  unfolding get_the_response_of_request
  get_the_response_of_request-id timeout elapsed [] msg d m d' h = cc
  get_the_response_of_request-id timeout elapsed (t ∷ ts) msg d m d' h =
      let now = arrive t.arrived d in
      elim (look-cases t.locked msg now.response_queue) [
        | inr (r, e, id) ↦
            ap (λ x. x.0.message_id)
              (returns-injective (sym h ∙ found_lem timeout elapsed t ts msg d r e))
            ∙ id
        | inl e ↦ elim (Bool-cases (leb (timeout * nanoseconds) elapsed)) [
          | inl over ↦
              ap (λ x. x.0.message_id)
                (returns-injective (sym h ∙ over_lem timeout elapsed t ts msg d e over))
              ∙ timeout_response-id msg
          | inr more ↦
              get_the_response_of_request-id timeout elapsed ts msg now m d'
                (sym (more_lem timeout elapsed t ts msg d e more) ∙ h)
        ]
      ]

  -- No turn finds the response.
  abbrev pub Unanswered : Message → List Turn → Driver → Type 0
  Unanswered msg [] d = Unit
  Unanswered msg (t ∷ ts) d =
      (look t.locked msg (arrive t.arrived d).response_queue ≡ returns none)
      × Unanswered msg ts (arrive t.arrived d)

  -- The time that the loop compares is the time between two calls of the clock in front of it. If
  -- that is less than the timeout, a request that no turn answers never times out, however many
  -- turns there are.
  pub get_the_response_of_request-waits :
      (timeout elapsed : ℕ) (turns : List Turn) (msg : Message) (d : Driver)
      → elapsed < timeout * nanoseconds
      → Unanswered msg turns d
      → get_the_response_of_request lib timeout elapsed turns msg d ≡ waits
  unfolding get_the_response_of_request
  get_the_response_of_request-waits timeout elapsed [] msg d early none_found = refl
  get_the_response_of_request-waits timeout elapsed (t ∷ ts) msg d early none_found =
      more_lem timeout elapsed t ts msg d none_found.0
        (lt→leb (timeout * nanoseconds) elapsed early)
      ∙ get_the_response_of_request-waits timeout elapsed ts msg (arrive t.arrived d) early
          none_found.1

  abbrev pub after : List Turn → Driver → Driver
  after [] d = d
  after (t ∷ ts) d = after ts (arrive t.arrived d)

  -- The reply that is queued last is found, after any number of turns without one: the call returns
  -- it and takes just it out of the queue.
  pub get_the_response_of_request-answer :
      (timeout elapsed : ℕ) (idle : List Turn) (t : Turn) (more : List Turn) (msg m : Message)
      (d : Driver) (q : List Response) (p : ℕ)
      → elapsed < timeout * nanoseconds
      → Unanswered msg idle d
      → IsOrdered d
      → t.locked ≡ true
      → (arrive t.arrived (after idle d)).response_queue ≡ q ++ (p, m) ∷ []
      → m.message_id ≡ msg.message_id
      → get_the_response_of_request lib timeout elapsed (idle ++ t ∷ more) msg d
        ≡ returns (m, record (arrive t.arrived (after idle d)) { response_queue = q })
  get_the_response_of_request-answer timeout elapsed [] t more msg m d q p early none_found o lock e
        id =
      found_lem timeout elapsed t more msg d (p, m)
        (rw
          (
            lock,
            e,
            look_locked msg (q ++ (p, m) ∷ []),
            last?-snoc q (p, m),
            id,
            text_eq_refl msg.message_id,
          )
          refl)
      ∙ ap (λ d'. returns (m, d'))
          (remove_response-back q p m (arrive t.arrived d) (arrive-IsOrdered t.arrived d o) e)
  get_the_response_of_request-answer timeout elapsed (i ∷ idle) t more msg m d q p early none_found
        o lock e id =
      more_lem timeout elapsed i (idle ++ t ∷ more) msg d none_found.0
        (lt→leb (timeout * nanoseconds) elapsed early)
      ∙ get_the_response_of_request-answer timeout elapsed idle t more msg m (arrive i.arrived d) q
          p early none_found.1 (arrive-IsOrdered i.arrived d o) lock e id

  look-other :
      (locked : Bool) (msg other : Message) (q : List Response) (p : ℕ)
      → other.message_id ≢ msg.message_id
      → look locked msg (q ++ (p, other) ∷ []) ≡ returns none
  look-other false msg other q p h = look_unlocked msg (q ++ (p, other) ∷ [])
  look-other true msg other q p h =
      rw
        (
          look_locked msg (q ++ (p, other) ∷ []),
          last?-snoc q (p, other),
          ne→text_eq other.message_id msg.message_id h,
        )
        refl

  buried :
      (turns : List Turn) (msg other : Message) (d : Driver) (q : List Response) (p : ℕ)
      → other.message_id ≢ msg.message_id
      → d.response_queue ≡ q ++ (p, other) ∷ []
      → All (λ (t : Turn). t.arrived ≡ []) turns
      → Unanswered msg turns d
  unfolding arrive
  buried [] msg other d q p ne e quiet = tt
  buried (t ∷ ts) msg other d q p ne e quiet =
      let same : arrive t.arrived d ≡ d = rw quiet.0 refl in
      (
        rw (same, e) (look-other t.locked msg other q p ne),
        rw same (buried ts msg other d q p ne e quiet.1),
      )

  -- Only the back of the queue is looked at. A reply that stands in front of the reply to another
  -- request is not found while nothing else arrives: the call never returns, if the time between
  -- the two calls of the clock in front of the loop is less than the timeout.
  pub get_the_response_of_request-buried :
      (timeout elapsed : ℕ) (turns : List Turn) (msg mine other : Message) (d : Driver)
      (q : List Response) (p p' : ℕ)
      → elapsed < timeout * nanoseconds
      → mine.message_id ≡ msg.message_id
      → other.message_id ≢ msg.message_id
      → d.response_queue ≡ (q ++ (p, mine) ∷ []) ++ (p', other) ∷ []
      → All (λ (t : Turn). t.arrived ≡ []) turns
      → get_the_response_of_request lib timeout elapsed turns msg d ≡ waits
  get_the_response_of_request-buried timeout elapsed turns msg mine other d q p p' early id ne e
        quiet =
      get_the_response_of_request-waits timeout elapsed turns msg d early
        (buried turns msg other d (q ++ (p, mine) ∷ []) p' ne e quiet)
