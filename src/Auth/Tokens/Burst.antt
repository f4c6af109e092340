-- ===== src/Auth/Tokens/Burst.antt =====
-- `refresh_invoke_token` called by many commands that failed on one access token.
use py_mammotion.Base.{
  maybe, ℕ, ◌+◌, String, ◌≡◌, ◌≢◌, refl, ◌∙◌, ap, Bool, true, false, Option, none, some, List, [],
  ◌∷◌, string_keys, if◌then◌else◌, eqb, arith,
}
use py_mammotion.Auth.{
  Error, Manager, World, done, state, bind, handle, Reply, answered, raised, CodeResponse,
  LoginResponseData, claims, Request, oauth2_token, authorization_code,
}
use py_mammotion.Auth.Login.{
  on_http_login_refreshed, set_response, logged_in, exchanged, token_reply, refresh_token_v2,
  authorized, code_reply, fetch_authorization_token,
}
use py_mammotion.Auth.Tokens.{
  raise_if_reauth_required, adopt_http, refresh_http, invoke_failed, renew_invoke_token,
  refresh_invoke_token, already_renewed, mark_reauth_required,
}

-- The callers take the lock one after the other, each at its own time.
unfoldable pub renew_all : World → String → List ℕ → Manager → Manager
unfolding state
renew_all w stale_token [] m = m
renew_all w stale_token (now ∷ callers) m =
    renew_all w stale_token callers (state (refresh_invoke_token w now (some stale_token) m))

renew_all-renewed :
    (w : World) (stale_token : String) (callers : List ℕ) (m : Manager)
    → already_renewed (some stale_token) m ≡ true
    → renew_all w stale_token callers m ≡ m
unfolding renew_all refresh_invoke_token state
renew_all-renewed w stale_token [] m h = refl
renew_all-renewed w stale_token (now ∷ callers) m h =
    rw h (renew_all-renewed w stale_token callers m h)

-- What the server answers to the first caller.
pub record Answers (w : World) (stale_token : String) (q : List Request) : Type 0 where
  pub login : LoginResponseData
  pub token : w.on_oauth2_token q ≡ answered (record { code = 0; content = some login })
  pub exp : Option ℕ
  pub readable : w.jwt_decode login.access_token ≡ claims exp
  pub moved : login.access_token ≢ stale_token
  pub kept :
      (r : CodeResponse)
      → w.on_authorization_code (oauth2_token ∷ q) ≡ answered r
      → r.access_token ≢ some stale_token

abbrev renewed : ℕ → Option ℕ → LoginResponseData → Manager → Manager
renewed now exp login m = record m {
  login_info = some login;
  expires_in = maybe exp 0 (λ t. t);
  http_creds = some (record {
    access_token = login.access_token;
    refresh_token = login.refresh_token;
    expires_at = now + login.expires_in;
  });
  requests = oauth2_token ∷ m.requests;
}

refresh_http-renewed :
    (w : World) (now : ℕ) (exp : Option ℕ) (m : Manager) (old login : LoginResponseData)
    → m.login_info ≡ some old
    → m.reauth_required ≡ none
    → w.on_oauth2_token m.requests ≡ answered (record { code = 0; content = some login })
    → w.jwt_decode login.access_token ≡ claims exp
    → refresh_http w now m ≡ done tt (renewed now exp login m)
unfolding refresh_http raise_if_reauth_required refresh_token_v2 token_reply exchanged logged_in
    set_response on_http_login_refreshed adopt_http maybe bind handle
refresh_http-renewed w now exp m old login l r t d = rw r (rw l (rw t (rw d refl)))

-- What the first caller leaves behind.
abbrev Moved : String → List Request → Manager → Type 0
Moved stale_token q m =
    (already_renewed (some stale_token) m ≡ true)
    × (m.requests ≡ authorization_code ∷ oauth2_token ∷ q)

holds :
    (stale_token : String) (l : LoginResponseData) (m : Manager)
    → m.login_info ≡ some l
    → l.access_token ≢ stale_token
    → already_renewed (some stale_token) m ≡ true
unfolding already_renewed maybe
holds stale_token l m e n =
    rw e (ground (arith, n, string_keys.same_iff l.access_token stale_token))

invoke_failed-Moved :
    (stale_token : String) (q : List Request) (e : Error) (m : Manager)
    → Moved stale_token q m
    → Moved stale_token q (state (invoke_failed e m))
unfolding invoke_failed mark_reauth_required already_renewed maybe state
invoke_failed-Moved stale_token q e m h = ground (arith, h.0, h.1)

code_reply-Moved :
    (stale_token : String) (q : List Request) (r : Reply CodeResponse) (login : LoginResponseData)
    → (m : Manager) → m.login_info ≡ some login
    → login.access_token ≢ stale_token
    → ((c : CodeResponse) → r ≡ answered c → c.access_token ≢ some stale_token)
    → m.requests ≡ authorization_code ∷ oauth2_token ∷ q
    → Moved stale_token q (state (handle (code_reply r login m) invoke_failed))
unfolding code_reply handle authorized state
code_reply-Moved stale_token q (raised e) login m l n k s =
    invoke_failed-Moved stale_token q e m (holds stale_token login m l n, s)
code_reply-Moved stale_token q (answered c) login m l n k s =
    go c.access_token (eqb c.code 0) (k c refl)
  where
    go :
        (o : Option String) (b : Bool)
        → o ≢ some stale_token
        → Moved stale_token q (
            maybe o m (λ token.
              if b
              then record m { login_info = some (record login { access_token = token }) }
              else m))
    go none b n' = (holds stale_token login m l n, s)
    go (some token) true n' = (holds stale_token _ _ refl (λ x. n' (ap some x)), s)
    go (some token) false n' = (holds stale_token login m l n, s)

not_renewed :
    (stale_token : String) (m : Manager) (old : LoginResponseData)
    → m.login_info ≡ some old
    → old.access_token ≡ stale_token
    → already_renewed (some stale_token) m ≡ false
unfolding already_renewed maybe
not_renewed stale_token m old l e =
    rw l (ground (arith, e, string_keys.same_iff old.access_token stale_token))

renew_invoke_token-renewed :
    (w : World) (now : ℕ) (exp : Option ℕ) (m : Manager) (old login : LoginResponseData)
    → m.login_info ≡ some old
    → m.reauth_required ≡ none
    → w.on_oauth2_token m.requests ≡ answered (record { code = 0; content = some login })
    → w.jwt_decode login.access_token ≡ claims exp
    → renew_invoke_token w now m
      ≡ handle
          (code_reply
            (w.on_authorization_code (oauth2_token ∷ m.requests))
            login
            (record (renewed now exp login m) {
              requests = authorization_code ∷ oauth2_token ∷ m.requests;
            }))
          invoke_failed
unfolding renew_invoke_token fetch_authorization_token maybe bind
renew_invoke_token-renewed w now exp m old login l r t d =
    ap (λ o. handle (bind o (λ u m'. fetch_authorization_token w m')) invoke_failed)
      (refresh_http-renewed w now exp m old login l r t d)

first_caller :
    (w : World) (now : ℕ) (stale_token : String) (m : Manager) (old : LoginResponseData)
    → m.login_info ≡ some old
    → old.access_token ≡ stale_token
    → m.reauth_required ≡ none
    → Answers w stale_token m.requests
    → Moved stale_token m.requests (state (refresh_invoke_token w now (some stale_token) m))
unfolding refresh_invoke_token
first_caller w now stale_token m old l e r a = rw (not_renewed stale_token m old l e) (
    rw (renew_invoke_token-renewed w now a.exp m old a.login l r a.token a.readable) (
      code_reply-Moved stale_token m.requests (w.on_authorization_code (oauth2_token ∷ m.requests))
        a.login _ refl a.moved a.kept refl))

-- If callers, at least one, whose requests all failed with the held access token call
-- refresh_invoke_token one after the other, the account is not given up, the server answers the
-- first with another access token, which can be decoded, and the answer to the request for a code
-- does not bring the old token back, then only one refresh token and one authorization code are
-- requested for all of them, even if the request for the code fails.
pub requests-renew_all :
    (w : World) (stale_token : String) (now : ℕ) (callers : List ℕ) (m : Manager)
    → (old : LoginResponseData) → m.login_info ≡ some old
    → old.access_token ≡ stale_token
    → m.reauth_required ≡ none
    → Answers w stale_token m.requests
    → (renew_all w stale_token (now ∷ callers) m).requests
      ≡ authorization_code ∷ oauth2_token ∷ m.requests
unfolding renew_all
requests-renew_all w stale_token now callers m old l e r a =
    let h = first_caller w now stale_token m old l e r a in
    ap (λ (x : Manager). x.requests) (renew_all-renewed w stale_token callers _ h.0) ∙ h.1
