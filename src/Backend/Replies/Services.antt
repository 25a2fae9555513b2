-- ===== src/Backend/Replies/Services.antt =====
-- The answers of the clients of HTTP and gRPC, and of a process.
use mathlib.Core.Path.{subst}
use caddy_esi.Prelude.{
  ◌≡◌, refl, sym, ◌∙◌, inl, inr, [], ◌∷◌, Option, none, some, leb, length, ==_iff, ◌==◌, Bool-cases,
}
use caddy_esi.Prelude.Result.{ok, err, bind-ok, or_fail, or_fail-ok}
use caddy_esi.Prelude.Text.{Bytes}
use caddy_esi.Http.{Header}
use caddy_esi.EsiTag.Args.{
  ResourceArgs, ExternalReq, Missing, validate, validate_with_key, prepare_forward_headers,
}
use caddy_esi.EsiTag.Args.Returned.{prepare_return_headers}
use caddy_esi.Backend.{read_failed, client_failed, json_failed, to_int, limit_reader, Bounded}
use caddy_esi.Backend.Http.{
  breaks_within, HttpClient, HttpResponse, responded, status_ok, set_pairs, fetch_checked,
  fetch_valid, handle_done, with_body, Done, failed_over, failed_open,
}
use caddy_esi.Backend.Grpc.{GrpcClient, body_of, call_checked, call_valid}
use caddy_esi.Backend.Shell.{
  Processes, Ran, not_run, ran, shell_command, execute_checked, execute, output, url_prefix,
}
use caddy_esi.Backend.Cuts.{limit_reader-Bounded, limit_reader-wraps, validate-size}
use caddy_esi.Backend.Replies.{http, grpc, shell, Sends, Replied, cut-Replied}

-- The client of HTTP.
record Responded (canonical : Bytes → Bytes) (c : HttpClient) (args : ResourceArgs) (body : Bytes)
    : Type 0 where
  body_sent : Bytes
  sends_it : Sends (http canonical c) args body_sent
  body_eq : body ≡ limit_reader (to_int args.tag.max_body_size) body_sent

module _ (canonical : Bytes → Bytes) (c : HttpClient) (args : ResourceArgs) (h : Option Header)
    (body : Bytes) where
  with_body-Responded :
      (e : ExternalReq) (r : HttpResponse)
      → args.external_req ≡ some e
      → c.send args.url
          (set_pairs canonical (prepare_forward_headers args.tag e) [])
          args.tag.timeout
        ≡ responded r
      → r.status ≡ status_ok
      → (with_body canonical c args r).answer ≡ ok (h, body)
      → Responded canonical c args body
  with_body-Responded e r q d s a =
      elim (Bool-cases (breaks_within canonical c (to_int args.tag.max_body_size) r)) [
        | inl b ↦
            absurd
              (let x : (with_body canonical c args r).answer ≡ err read_failed = rw b refl in cc)
        | inr b ↦
            let x : (with_body canonical c args r).answer
                ≡ ok (
                  prepare_return_headers canonical args.tag r.header,
                  limit_reader (to_int args.tag.max_body_size) r.body,
                ) =
              rw b refl in
            record { body_sent = r.body; sends_it = (e, r, q, d, s, b, refl); body_eq = cc }
      ]

  handle_done-Responded :
      (e : ExternalReq) (d : Done)
      → args.external_req ≡ some e
      → c.send args.url
          (set_pairs canonical (prepare_forward_headers args.tag e) [])
          args.tag.timeout
        ≡ d
      → (handle_done canonical c args d).answer ≡ ok (h, body)
      → Responded canonical c args body
  handle_done-Responded e failed_over q s a = absurd (cc)
  handle_done-Responded e failed_open q s a = absurd (cc)
  handle_done-Responded e (responded r) q s a = elim (Bool-cases (r.status == status_ok)) [
    | inl t ↦ with_body-Responded e r q s ((==_iff r.status status_ok).0 t) (rw t at a)
    | inr t ↦ absurd (let x = rw t at a in cc)
  ]

  fetch_valid-Responded :
      (o : Option ExternalReq)
      → args.external_req ≡ o
      → (fetch_valid canonical c args o).answer ≡ ok (h, body)
      → Responded canonical c args body
  fetch_valid-Responded none q a = absurd (cc)
  fetch_valid-Responded (some e) q a = elim (Bool-cases (c.accepts args.url)) [
    | inl t ↦ handle_done-Responded e _ q refl (rw t at a)
    | inr t ↦ absurd (let x = rw t at a in cc)
  ]

  pub fetch_checked-Replied :
      (o : Option Missing)
      → validate args ≡ o
      → (fetch_checked canonical c args o).answer ≡ ok (h, body)
      → Replied (http canonical c) args body
  fetch_checked-Replied (some x) v a = absurd (cc)
  fetch_checked-Replied none v a =
      let r = fetch_valid-Responded args.external_req refl a in
      let n = args.tag.max_body_size in
      record {
        accepted = v;
        size_pos = validate-size args v;
        sent = r.body_sent;
        sends = r.sends_it;
        bounded = λ l.
            subst (Bounded n r.body_sent) (sym r.body_eq) (limit_reader-Bounded n r.body_sent l);
        wrapped = λ l. r.body_eq ∙ limit_reader-wraps n r.body_sent l;
      }

module _ (c : GrpcClient) (args : ResourceArgs) (h : Option Header) (body : Bytes) where
  call_valid-Replied :
      (o : Option ExternalReq)
      → args.external_req ≡ o
      → validate args ≡ none
      → validate_with_key args ≡ none
      → call_valid c args o ≡ ok (h, body)
      → Replied (grpc c) args body
  call_valid-Replied none q v w a = absurd (cc)
  call_valid-Replied (some e) q v w a =
      let (b, read, a₁) = bind-ok (body_of c args e) _ a in
      let (sent, got, a₂) = bind-ok (or_fail client_failed _) _ a₁ in
      cut-Replied (grpc c) args sent body refl (v, w) (validate-size args v)
        (e, b, q, read, or_fail-ok client_failed _ sent got) (cc)

  pub call_checked-Replied :
      (o m : Option Missing)
      → validate args ≡ o
      → validate_with_key args ≡ m
      → call_checked c args o m ≡ ok (h, body)
      → Replied (grpc c) args body
  call_checked-Replied (some x) m v w a = absurd (cc)
  call_checked-Replied none (some x) v w a = absurd (cc)
  call_checked-Replied none none v w a = call_valid-Replied args.external_req refl v w a

module _ (p : Processes) (args : ResourceArgs) (h : Option Header) (body : Bytes) where
  output-Replied :
      (j : Bytes) (r : Ran)
      → validate args ≡ none
      → p.marshal args ≡ some j
      → p.run (shell_command args.url).0 (shell_command args.url).1 args.tag.timeout j ≡ r
      → output p args r ≡ ok (h, body)
      → Replied (shell p) args body
  output-Replied j not_run v m r a = absurd (cc)
  output-Replied j (ran out (x ∷ xs)) v m r a = absurd (cc)
  output-Replied j (ran out []) v m r a =
      cut-Replied (shell p) args out body refl v (validate-size args v) (j, m, r) (cc)

  pub execute_checked-Replied :
      (o : Option Missing)
      → validate args ≡ o
      → execute_checked p args o ≡ ok (h, body)
      → Replied (shell p) args body
  execute_checked-Replied (some x) v a = absurd (cc)
  execute_checked-Replied none v a = elim (Bool-cases (leb (length args.url) (length url_prefix))) [
    | inl t ↦ absurd (let x = rw t at a in cc)
    | inr t ↦
        let a' : execute p args (shell_command args.url) ≡ ok (h, body) = rw t at a in
        let (j, m, a₁) = bind-ok (or_fail json_failed (p.marshal args)) _ a' in
        output-Replied j _ v (or_fail-ok json_failed _ j m) refl a₁
  ]
