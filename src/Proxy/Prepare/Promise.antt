-- ===== src/Proxy/Prepare/Promise.antt =====
-- `prepare` keeps its promise, and a rejected line leaves the session as it was.
use weregopher.Base.{
  ℕ, ◌≤◌, ◌≡◌, refl, sym, ◌≢◌, inl, inr, Bool, true, false, ◌||◌, some, List, arith, ◌==◌, length,
  any, ok, err, Result-cases,
}
use weregopher.Proxy.Text.{text}
use weregopher.Proxy.Json.{Raw, Json, object, Members, read}
use weregopher.Proxy.Queue.{ProxyError, inconsistent_correlation_state}
use weregopher.Proxy.Limits.{JsonLimits, ProxyLimits}
use weregopher.Proxy.Message.{Direction, RequestId}
use weregopher.Proxy.Message.Digest.{IsWireId}
use weregopher.Proxy.State.{Proxy}
use weregopher.Proxy.Admit.{Candidate}
use weregopher.Proxy.Json.Measure.{count, height, distinct_keys, present}
use weregopher.Proxy.Json.Bounded.{read-Within}
use weregopher.Proxy.Prepare.{
  ClassifiedMessage, parse_request_id, classify_call, classify_response, classify_object,
  parse_bounded_json, parse_and_classify, prepare, ingest,
}
use weregopher.Proxy.Prepare.Plain.{
  IsPlainMethod, IsPlainId, parse_request_id-IsPlainId, option-IsPlainId,
  classify_object-IsPlainMethod,
}
use weregopher.Proxy.Prepare.Checked.{
  in_range, get_member-in_range, parse_request_id-IsWireId, classify_object-Classifies,
}
use weregopher.Proxy.Invariant.{Inv, Sound}
use weregopher.Proxy.Invariant.Calls.{IsPrepared, refused_as_it_was, admit_candidate-Sound}
use weregopher.Proxy.Side.{IsCollisionFree}

abbrev candidate_of : Proxy → Direction → List ℕ → ClassifiedMessage → Candidate
candidate_of self direction line m = record {
  prepared_limits = self.limits;
  observation = record {
    direction = direction;
    kind = m.kind;
    method = m.method;
    request_id = m.request_id;
    byte_length = length line;
  };
  json_bytes = line;
}

classify_object-err :
    (entries : Members) (x : ProxyError)
    → classify_object entries ≡ err x
    → x ≢ inconsistent_correlation_state
unfolding classify_object classify_call classify_response parse_request_id
classify_object-err entries x e = λ same. ground arith

module _ (deserialize : List ℕ → Raw × Bool) where
  -- What was accepted of some bytes.
  pub record Accepts (bytes : List ℕ) (limits : JsonLimits) (v : Json) : Type 0 where
    pub nodes : count v ≤ limits.nodes
    pub depth : height v ≤ limits.depth
    pub keys : distinct_keys v ≡ true
    pub presented : deserialize bytes ≡ (present v, true)

  -- A line that the bounded reader accepts is JSON and nothing more, within the limits on nodes and
  -- depth, and no object in it has a key twice.
  pub parse_bounded_json-Accepts :
      (bytes : List ℕ) (limits : JsonLimits) (v : Json)
      → parse_bounded_json deserialize bytes limits ≡ ok v
      → Accepts bytes limits v
  unfolding parse_bounded_json
  parse_bounded_json-Accepts bytes limits v e =
      elim (Result-cases (read limits (deserialize bytes).0)) [
        | inr (x, bad) ↦ absurd (ground (arith, bad))
        | inl ((w, used), good) ↦
            let (small, shallow, apart, shown) =
              read-Within limits (deserialize bytes).0 w used good in
            let same : w ≡ v = ground (arith, good) in
            let ended : (deserialize bytes).1 ≡ true = ground (arith, good) in
            rw (sym same) (record {
              nodes = small;
              depth = shallow;
              keys = apart;
              presented = cc (shown, ended);
            })
      ]

  -- The steps of a line that was classified.
  record Parses (line : List ℕ) (limits : ProxyLimits) (m : ClassifiedMessage) : Type 0 where
    entries : Members
    accepted : parse_bounded_json deserialize line limits.json ≡ ok (object entries)
    classified : classify_object entries ≡ ok m
    short : length line ≤ limits.line_bytes
    one_line : any (λ b. b == 13 || b == 10) line ≡ false

  parse_and_classify-Parses :
      (line : List ℕ) (limits : ProxyLimits) (m : ClassifiedMessage)
      → parse_and_classify deserialize line limits ≡ ok m
      → Parses line limits m
  unfolding parse_and_classify
  parse_and_classify-Parses line limits m e =
      elim (Result-cases (parse_bounded_json deserialize line limits.json)) [
        | inr (x, bad) ↦ absurd (ground (arith, bad))
        | inl (object entries, good) ↦ record {
          entries = entries;
          accepted = good;
          classified = ground (arith, good);
          short = ground (arith, good);
          one_line = ground (arith, good);
        }
        | inl (v, good) ↦ absurd (ground (arith, good))
      ]

  -- A candidate that `prepare` made.
  pub record Prepares (self : Proxy) (direction : Direction) (line : List ℕ) (c : Candidate)
      : Type 0 where
    pub prepared : IsPrepared c
    pub plain_method : IsPlainMethod c.observation.method
    pub plain_id : IsPlainId c.observation.request_id
    pub limits : c.prepared_limits ≡ self.limits
    pub directed : c.observation.direction ≡ direction
    pub exact : c.json_bytes ≡ line
    pub measured : c.observation.byte_length ≡ length line
    pub short : length line ≤ self.limits.line_bytes
    pub one_line : any (λ b. b == 13 || b == 10) line ≡ false

  Classifies-wire :
      (line : List ℕ) (limits : ProxyLimits) (m : ClassifiedMessage) (id : RequestId)
      → in_range (deserialize line).0 ≡ true
      → Parses line limits m
      → m.request_id ≡ some id
      → IsWireId id
  unfolding present in_range
  Classifies-wire line limits m id fits p given =
      let a = parse_bounded_json-Accepts line limits.json (object p.entries) p.accepted in
      let (v, found, parsed) =
        (classify_object-Classifies p.entries m p.classified).parsed id given in
      let whole : in_range (present (object p.entries)) ≡ true = rw (a.presented) at fits in
      parse_request_id-IsWireId v id (get_member-in_range (text "id") p.entries v whole found)
        parsed

  -- `prepare` keeps its promise: a candidate holds the exact line, in the direction and under the
  -- limits of the session, the line is one and within the limit on its length, a request has an
  -- identity, an identity is a `u64`, a negative `i64` or a text, and a method and a text identity
  -- are not empty, have at most 1024 and 256 bytes, and no control character. The numbers that
  -- `serde_json` presents are taken to be in range.
  pub prepare-Prepares :
      (self : Proxy) (direction : Direction) (line : List ℕ) (c : Candidate)
      → in_range (deserialize line).0 ≡ true
      → prepare deserialize self direction line ≡ ok c
      → Prepares self direction line c
  unfolding prepare
  prepare-Prepares self direction line c fits e =
      elim (Result-cases (parse_and_classify deserialize line self.limits)) [
        | inr (x, bad) ↦ absurd (ground (arith, bad))
        | inl (m, good) ↦
            let p = parse_and_classify-Parses line self.limits m good in
            let k = classify_object-Classifies p.entries m p.classified in
            let same : candidate_of self direction line m ≡ c = ground (arith, good) in
            rw (sym same) (record {
              prepared = record {
                identified = k.identified;
                wire = λ id given. Classifies-wire line self.limits m id fits p given;
              };
              plain_method = classify_object-IsPlainMethod p.entries m p.classified;
              plain_id = option-IsPlainId m.request_id (λ id given.
                  let (v, found, parsed) = k.parsed id given in
                  parse_request_id-IsPlainId v id parsed);
              limits = refl;
              directed = refl;
              exact = refl;
              measured = refl;
              short = p.short;
              one_line = p.one_line;
            })
      ]

  prepare-err :
      (self : Proxy) (direction : Direction) (line : List ℕ) (x : ProxyError)
      → prepare deserialize self direction line ≡ err x
      → x ≢ inconsistent_correlation_state
  unfolding prepare parse_and_classify parse_bounded_json
  prepare-err self direction line x e = λ same.
      elim (Result-cases (read self.limits.json (deserialize line).0)) [
        | inr (y, bad) ↦ ground (arith, bad)
        | inl ((object entries, used), good) ↦ elim (Result-cases (classify_object entries)) [
          | inr (y, bad) ↦ classify_object-err entries y bad (ground (arith, good, bad))
          | inl (m, fine) ↦ ground (arith, good, fine)
        ]
        | inl ((v, used), good) ↦ ground (arith, good)
      ]

  -- A rejected line does not change the session: on a session that satisfies its invariant,
  -- taking a line in either succeeds or leaves the session as it was, keeps the invariant, and
  -- never reports an inconsistent correlation state. SHA-256 is taken to be free of collisions
  -- on request identities, and the numbers that `serde_json` presents of the line to be in
  -- range.
  pub ingest-Sound :
      (sha256 : List ℕ → List ℕ) (self : Proxy) (direction : Direction) (line : List ℕ)
      → IsCollisionFree sha256
      → in_range (deserialize line).0 ≡ true
      → Inv sha256 self
      → Sound sha256 self (ingest deserialize sha256 self direction line)
  unfolding ingest
  ingest-Sound sha256 self direction line apart fits v =
      elim (Result-cases (prepare deserialize self direction line)) [
        | inr (x, bad) ↦
            rw (bad, ingest)
              (refused_as_it_was sha256 self x v (prepare-err self direction line x bad))
        | inl (c, good) ↦
            rw (good, ingest)
              (admit_candidate-Sound sha256 self c apart v
                (prepare-Prepares self direction line c fits good).prepared)
      ]
