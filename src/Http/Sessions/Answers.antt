-- ===== src/Http/Sessions/Answers.antt =====
-- When a session is created.
use playwright_distributed.Base.{
  Error, queue_full, wait_timeout, Result, ok, err, ℕ, ◌≤◌, ◌≡◌, refl, ap, ◌∙◌, ◌≢◌, ◌↔◌, inl, inr,
  false, Option, none, some, arith, ltb, Bool-cases, Option-cases, length, Bytes,
}
use playwright_distributed.Db.Models.{SessionMode, default, dedicated, Session}
use playwright_distributed.Scheduler.Settings.{ClaimRequest}
use playwright_distributed.Http.Auth.{Principal}
use playwright_distributed.Http.Response.{answered}
use playwright_distributed.Http.Sessions.{
  CreateSessionBody, SessionBody, requested_prefix, admission_answer, session_from_data,
  session_answer, created, admitted, encoded_as, in_mode, create_session,
}

-- An error of the scheduler never becomes an answer with a body.
admission_refuses :
    {A : Type 0} (e : Error) (status : ℕ) (a : A) → admission_answer e ≢ answered status a
unfolding admission_answer
admission_refuses queue_full status a h = cc
admission_refuses wait_timeout status a h = cc
admission_refuses Error.draining status a h = cc
admission_refuses e status a h = ground arith

module _ {Metadata : Type 0} (no_metadata : Metadata) (marshal : Metadata → Option Bytes)
    (unmarshal : Bytes → Option Metadata) where
  -- A request within the limits, and the session that the scheduler gave for it.
  pub record IsCreated (scheduler : Option (ClaimRequest → Result Session)) (p : Principal)
      (body : CreateSessionBody Metadata) (answer : SessionBody Metadata) : Type 0 where
    pub admits : ClaimRequest → Result Session
    pub session : Session
    pub encoded : Bytes
    pub prefix : Bytes
    pub configured : scheduler ≡ some admits
    pub shared : body.mode ≡ default
    pub encodes :
        marshal (elim body.connect_metadata [ none ↦ no_metadata | some m ↦ m ]) ≡ some encoded
    pub fits : length encoded ≤ 8_192
    pub is_version : requested_prefix body.playwright_version ≡ some prefix
    pub gave :
        admits (record {
          browser = body.browser;
          version_prefix = prefix;
          created_by_key = p.key_id;
          connect_metadata = some encoded;
        })
        ≡ ok session
    pub reads : session_from_data no_metadata marshal unmarshal session ≡ some answer

  created_sound :
      (r : Result Session) (status : ℕ) (answer : SessionBody Metadata)
      → created no_metadata marshal unmarshal r ≡ answered status answer
      → (s : Session) × ((r ≡ ok s)
          × ((status ≡ 201) × (session_from_data no_metadata marshal unmarshal s ≡ some answer)))
  unfolding created session_answer admission_answer
  created_sound (ok s) status answer h =
      elim (Option-cases (session_from_data no_metadata marshal unmarshal s)) [
        | inl e ↦ absurd (ground arith)
        | inr (b, e) ↦ (s, (refl, (ground arith, ground arith)))
      ]
  created_sound (err e) status answer h = absurd (admission_refuses e status answer h)

  admitted_sound :
      (p : Principal) (body : CreateSessionBody Metadata)
      (scheduler : Option (ClaimRequest → Result Session)) (encoded : Bytes) (status : ℕ)
      (answer : SessionBody Metadata)
      → body.mode ≡ default
      → marshal (elim body.connect_metadata [ none ↦ no_metadata | some m ↦ m ]) ≡ some encoded
      → length encoded ≤ 8_192
      → admitted no_metadata marshal unmarshal p body scheduler encoded ≡ answered status answer
      → (status ≡ 201) × IsCreated scheduler p body answer
  unfolding admitted
  admitted_sound p body none encoded status answer m e fits h = cc
  admitted_sound p body (some admit) encoded status answer m e fits h =
      elim (Option-cases (requested_prefix body.playwright_version)) [
        | inl v ↦ absurd (ground arith)
        | inr (prefix, v) ↦
            let c : created no_metadata marshal unmarshal (
                  admit (record {
                    browser = body.browser;
                    version_prefix = prefix;
                    created_by_key = p.key_id;
                    connect_metadata = some encoded;
                  }))
                ≡ answered status answer =
              rw (admitted, v) at h in
            let (s, (gave, (is_201, reads))) = created_sound _ status answer c in
            (
              is_201,
              record {
                admits = admit;
                session = s;
                encoded = encoded;
                prefix = prefix;
                configured = refl;
                shared = m;
                encodes = e;
                fits = fits;
                is_version = v;
                gave = gave;
                reads = reads;
              },
            )
      ]

  encoded_sound :
      (scheduler : Option (ClaimRequest → Result Session)) (p : Principal)
      (body : CreateSessionBody Metadata) (status : ℕ) (answer : SessionBody Metadata)
      (o : Option Bytes)
      → body.mode ≡ default
      → marshal (elim body.connect_metadata [ none ↦ no_metadata | some m ↦ m ]) ≡ o
      → encoded_as no_metadata marshal unmarshal scheduler p body o ≡ answered status answer
      → (status ≡ 201) × IsCreated scheduler p body answer
  unfolding encoded_as
  encoded_sound scheduler p body status answer none m e h = cc
  encoded_sound scheduler p body status answer (some encoded) m e h =
      elim (Bool-cases (ltb 8_192 (length encoded))) [
        | inl long ↦ absurd (ground arith)
        | inr short ↦
            let fits : length encoded ≤ 8_192 = ground arith in
            admitted_sound p body scheduler encoded status answer m e fits
              (rw (encoded_as, short) at h)
      ]

  in_mode_sound :
      (scheduler : Option (ClaimRequest → Result Session)) (p : Principal)
      (body : CreateSessionBody Metadata) (status : ℕ) (answer : SessionBody Metadata)
      (m : SessionMode)
      → body.mode ≡ m
      → in_mode no_metadata marshal unmarshal scheduler p body m ≡ answered status answer
      → (status ≡ 201) × IsCreated scheduler p body answer
  unfolding in_mode
  in_mode_sound scheduler p body status answer dedicated m h = cc
  in_mode_sound scheduler p body status answer default m h =
      encoded_sound scheduler p body status answer _ m refl h

  encoded_complete :
      (scheduler : Option (ClaimRequest → Result Session)) (p : Principal)
      (body : CreateSessionBody Metadata) (answer : SessionBody Metadata)
      (c : IsCreated scheduler p body answer)
      → encoded_as no_metadata marshal unmarshal scheduler p body (some c.encoded)
        ≡ answered 201 answer
  unfolding encoded_as admitted created session_answer
  encoded_complete scheduler p body answer c =
      let small : ltb 8_192 (length c.encoded) ≡ false = ground (arith, c.fits) in
      rw (small, c.configured, admitted, c.is_version, c.gave, session_from_data, created, c.reads)
        refl

  create_session_complete :
      (scheduler : Option (ClaimRequest → Result Session)) (p : Principal)
      (body : CreateSessionBody Metadata) (answer : SessionBody Metadata)
      → IsCreated scheduler p body answer
      → create_session no_metadata marshal unmarshal scheduler p body ≡ answered 201 answer
  unfolding create_session in_mode
  create_session_complete scheduler p body answer c =
      ap (in_mode no_metadata marshal unmarshal scheduler p body) c.shared
      ∙ ap (encoded_as no_metadata marshal unmarshal scheduler p body) c.encodes
      ∙ encoded_complete scheduler p body answer c

  -- A session is created, with 201, exactly if the scheduler is configured, the mode is default, the
  -- metadata encode to 8 KiB at most, the version is empty or has a prefix, and the scheduler gives a
  -- session whose metadata decode; and then the answer is that session.
  pub create_session_iff :
      (scheduler : Option (ClaimRequest → Result Session)) (p : Principal)
      (body : CreateSessionBody Metadata) (status : ℕ) (answer : SessionBody Metadata)
      → (create_session no_metadata marshal unmarshal scheduler p body ≡ answered status answer)
        ↔ ((status ≡ 201) × IsCreated scheduler p body answer)
  unfolding create_session
  create_session_iff scheduler p body status answer = (
    in_mode_sound scheduler p body status answer body.mode refl,
    λ (is_201, c). rw is_201 (create_session_complete scheduler p body answer c),
  )
