-- ===== src/Serving/Run.antt =====
-- `POST /cases/run`: the approvals that a turn raised are recorded.
use adk_a2a_gke.Prelude.{
  ℕ, suc, String, ◌≡◌, refl, inl, inr, ◌∙◌, true, false, none, some, List, [], ◌∷◌, ◌++◌, arith,
  eq_iff, eq_refl, if◌then◌else◌, Option-cases, Bool-cases, All,
}
use adk_a2a_gke.Json.{obj, Fields, end, field, Number, Codec, truthy}
use adk_a2a_gke.Cases.Case.{pending, ApprovalCase}
use adk_a2a_gke.Cases.Store.{IsCaseStore, IsFresh}
use adk_a2a_gke.Cases.Replies.{
  first_true, as_dict, case_from_proposal, new_case, find_proposals, new_proposal_id,
}
use adk_a2a_gke.Cases.Replies.Proposals.{IsProposal, find_proposals_sound}
use adk_a2a_gke.Serving.{
  World, Process, CaseRun, RunReply, TurnResult, run_turn, open_found, open_all, chosen_session,
  cases_run,
}

-- A case as `case_from_proposal` makes it of `found`.
pub record IsOpened {N : Type 0} (session_id proposal_id : String) (now : ℕ) (proposal : Fields N)
    (c : ApprovalCase N) : Type 0 where
  pub fresh : IsFresh c
  pub waits : c.status ≡ pending
  pub session : c.session_id ≡ session_id
  pub id : c.proposal_id ≡ proposal_id
  pub opened_at : c.created_at ≡ now
  pub asked : c.proposal ≡ proposal

first_true-obj :
    {N : Type 0} (n : Number N) (fs : Fields N)
    → as_dict (first_true n (some (obj fs)) (obj end)) ≡ some fs
unfolding first_true as_dict truthy
first_true-obj n end = refl
first_true-obj n (field k v fs) = refl

pub case_from_proposal_lem :
    {N : Type 0} (n : Number N) (codec : Codec N) (found : Fields N)
    (session_id case_id agent id : String) (now : ℕ) (p : IsProposal found)
    → (c : ApprovalCase N) × (case_from_proposal n codec found session_id case_id agent id now
        ≡ some c)
      × IsOpened session_id id now p.proposal c
unfolding case_from_proposal
case_from_proposal_lem n codec found session_id case_id agent id now p = (
  new_case n codec found session_id case_id agent id now p.proposal,
  rw (p.has_proposal, first_true-obj),
  unfold new_case in
      record {
        fresh = record { result = refl; decided_by = refl; decided_at = refl; executed_at = refl };
        waits = refl;
        session = refl;
        id = refl;
        opened_at = refl;
        asked = refl;
      },
)

module _ {N S : Type 0} (p : Process N S) (h : IsCaseStore p.cases) where
  -- The case is stored as it was opened, waits for a decision in this session, and its id was
  -- unknown to `old`.
  abbrev pub Stored : S → String → S → ApprovalCase N → Type 0
  Stored old session_id s c =
      (p.cases.get c.proposal_id s ≡ some c)
      × (c.status ≡ pending)
      × (c.session_id ≡ session_id)
      × (p.cases.get c.proposal_id old ≡ none)

  -- What stands after some proposals were opened: the cases in the answer are stored, and what the
  -- store held before, `old`, it still holds.
  pub record Opened (old : S) (session_id : String) (opened : List (ApprovalCase N)) (s : S)
      : Type 0 where
    pub stored : All (Stored old session_id s) opened
    pub kept :
        (j : String) (c : ApprovalCase N) → p.cases.get j old ≡ some c → p.cases.get j s ≡ some c

  -- The loop's state after the case `c` was made of a proposal.
  abbrev after_open :
      ApprovalCase N → List (ApprovalCase N) × World S → List (ApprovalCase N) × World S
  after_open c (opened, w) = (
    (if (p.cases.open_case c w.store).0 then opened ++ c ∷ [] else opened),
    record w { store = (p.cases.open_case c w.store).1; drawn = suc w.drawn },
  )

  open_found-made :
      (now : ℕ) (session_id : String) (found : Fields N) (c : ApprovalCase N)
      (acc : List (ApprovalCase N) × World S)
      → case_from_proposal p.number p.codec found session_id session_id ""
          (new_proposal_id (p.ids acc.1.drawn))
          now
        ≡ some c
      → open_found p now session_id found acc ≡ some (after_open c acc)
  unfolding open_found
  open_found-made now session_id found c (opened, w) made = rw (made, open_found) refl

  All-map :
      (P Q : ApprovalCase N → Type 0)
      → ((c : ApprovalCase N) → P c → Q c)
      → (cs : List (ApprovalCase N)) → All P cs
      → All Q cs
  All-map P Q f [] a = a
  All-map P Q f (c ∷ cs) (a, rest) = (f c a, All-map P Q f cs rest)

  All-append :
      (P : ApprovalCase N → Type 0) (cs : List (ApprovalCase N)) (c : ApprovalCase N)
      → All P cs
      → P c
      → All P (cs ++ c ∷ [])
  All-append P [] c a b = (b, a)
  All-append P (d ∷ cs) c (a, rest) b = (a, All-append P cs c rest b)

  still :
      (j : String) (c d : ApprovalCase N) (s : S)
      → IsFresh c
      → p.cases.get j s ≡ some d
      → p.cases.get j (p.cases.open_case c s).1 ≡ some d
  still j c d s fresh e = ground (arith, h.get-open j c s fresh, e, eq_iff c.proposal_id j)

  Stored-open :
      (old : S) (session_id : String) (c : ApprovalCase N) (s : S)
      → IsFresh c
      → (d : ApprovalCase N) → Stored old session_id s d
      → Stored old session_id (p.cases.open_case c s).1 d
  Stored-open old session_id c s fresh d (e, a, b, u) = (still d.proposal_id c d s fresh e, a, b, u)

  -- A case that was new is stored, and its id was unknown from the start.
  Stored-new :
      (old : S) (session_id id : String) (now : ℕ) (proposal : Fields N) (c : ApprovalCase N)
      (s : S)
      → IsOpened session_id id now proposal c
      → ((j : String) (d : ApprovalCase N) → p.cases.get j old ≡ some d → p.cases.get j s ≡ some d)
      → (p.cases.open_case c s).0 ≡ true
      → Stored old session_id (p.cases.open_case c s).1 c
  Stored-new old session_id id now proposal c s is kept new =
      let unknown : p.cases.get c.proposal_id s ≡ none =
        elim (Option-cases (p.cases.get c.proposal_id s)) [
          | inl e ↦ e
          | inr (d, e) ↦ absurd (ground (arith, h.open_reply c s, new, e))
        ] in
      (
        ground (arith, h.get-open c.proposal_id c s is.fresh, unknown, eq_refl c.proposal_id),
        is.waits,
        is.session,
        elim (Option-cases (p.cases.get c.proposal_id old)) [
          | inl e ↦ e
          | inr (d, e) ↦ absurd (ground (arith, kept c.proposal_id d e, unknown))
        ],
      )

  after_open-Opened :
      (now : ℕ) (old : S) (session_id id : String) (proposal : Fields N) (c : ApprovalCase N)
      (acc : List (ApprovalCase N) × World S)
      → IsOpened session_id id now proposal c
      → Opened old session_id acc.0 acc.1.store
      → Opened old session_id (after_open c acc).0 (after_open c acc).1.store
  after_open-Opened now old session_id id proposal c (opened, w) is o =
      let held =
        All-map (Stored old session_id w.store)
          (Stored old session_id (p.cases.open_case c w.store).1)
          (Stored-open old session_id c w.store is.fresh) opened o.stored in
      record {
        stored = elim (Bool-cases (p.cases.open_case c w.store).0) [
          | inl new ↦ rw new (
              All-append (Stored old session_id (p.cases.open_case c w.store).1) opened c held
                (Stored-new old session_id id now proposal c w.store is o.kept new))
          | inr known ↦ rw known held
        ];
        kept = λ j d e. still j c d w.store is.fresh (o.kept j d e);
      }

  open_all-step :
      (now : ℕ) (session_id : String) (f : Fields N) (fs : List (Fields N))
      (acc acc' : List (ApprovalCase N) × World S)
      → open_found p now session_id f acc ≡ some acc'
      → open_all p now session_id (f ∷ fs) acc ≡ open_all p now session_id fs acc'
  unfolding open_all
  open_all-step now session_id f fs acc acc' e = rw (e, open_all) refl

  open_all-Opened :
      (now : ℕ) (old : S) (session_id : String) (founds : List (Fields N))
      (acc : List (ApprovalCase N) × World S)
      → All IsProposal founds
      → Opened old session_id acc.0 acc.1.store
      → (acc' : List (ApprovalCase N) × World S) × (open_all p now session_id founds acc
          ≡ some acc')
        × Opened old session_id acc'.0 acc'.1.store
  unfolding open_all
  open_all-Opened now old session_id [] acc all o = (acc, refl, o)
  open_all-Opened now old session_id (f ∷ fs) acc (q, all) o =
      let id = new_proposal_id (p.ids acc.1.drawn) in
      let (c, made, is) =
        case_from_proposal_lem p.number p.codec f session_id session_id "" id now q in
      let one = open_found-made now session_id f c acc made in
      let rest =
        open_all-Opened now old session_id fs (after_open c acc) all
          (after_open-Opened now old session_id id q.proposal c acc is o) in
      (rest.0, open_all-step now session_id f fs acc (after_open c acc) one ∙ rest.1, rest.2)

  -- The turn that `cases_run` runs.
  abbrev pub proposing_turn : CaseRun → World S → TurnResult × World S
  proposing_turn req w =
      run_turn p
        (record { user_id = req.user_id; session_id = (chosen_session p req w).0; text = req.text })
        (chosen_session p req w).1

  open_all-total :
      (now : ℕ) (req : CaseRun) (w : World S)
      → let (turn, w') = proposing_turn req w in
        (acc : List (ApprovalCase N) × World S) × (open_all p now
            (chosen_session p req w).0
            (find_proposals p.codec turn.texts)
            ([], w')
          ≡ some acc)
        × Opened w'.store (chosen_session p req w).0 acc.0 acc.1.store
  open_all-total now req w =
      let (turn, w') = proposing_turn req w in
      open_all-Opened now w'.store (chosen_session p req w).0 (find_proposals p.codec turn.texts)
        ([], w') (find_proposals_sound p.codec turn.texts).0
        (record { stored = tt; kept = λ j c e. e })

  -- Over any store that keeps the contract, `cases_run` always answers, since what `find_proposals`
  -- returns are proposals that a case can be made of. Each case in the answer is stored as it
  -- stands there, pending, in the session of the answer, under an id that the store did not know
  -- after the turn; and every case that the store held after the turn is as it was.
  pub cases_run_opens :
      (now : ℕ) (req : CaseRun) (w : World S)
      → (reply : RunReply N) × (w' : World S) × (cases_run p now req w ≡ some (reply, w'))
        × (reply.session_id ≡ (chosen_session p req w).0)
        × Opened (proposing_turn req w).1.store reply.session_id reply.opened w'.store
  unfolding cases_run
  cases_run_opens now req w =
      let (acc, e, o) = open_all-total now req w in
      (
        record {
          awaiting_approval = elim acc.0 [ [] ↦ false | _ ∷ _ ↦ true ];
          session_id = (chosen_session p req w).0;
          user_id = req.user_id;
          final_text = (proposing_turn req w).0.final_text;
          opened = acc.0;
          trace = (proposing_turn req w).0.trace;
        },
        acc.1,
        rw e refl,
        refl,
        o,
      )
