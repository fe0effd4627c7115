-- ===== src/Auth/OAuth/Authorize/Consent.antt =====
-- When the authorization endpoint hands out a code, and what that code is good for.
use Prim.Native.String
use letkite_lite.Prelude.{
  Bool, true, not, ◌||◌, String, ◌==◌, ◌≡◌, ◌≢◌, ◌⊎◌, refl, Option, none, some, arith, eq_iff, mem,
  any, All, non_empty, find, keep, List, ap, sym, ◌∙◌,
}
use letkite_lite.Prelude.Text.{words, unwords, IsWord, words-IsWord}
use letkite_lite.Settings.{Settings, scopes}
use letkite_lite.Auth.Store.{Metadata, CodeRow}
use letkite_lite.Auth.Store.Codes.{put_code, new_code, has_code_hash}
use letkite_lite.Auth.Store.SingleUse.{put_code-found}
use letkite_lite.Auth.OAuth.{External, World, Form, form_get, ErrorCode}
use letkite_lite.Auth.OAuth.Scopes.{norm_scopes}
use letkite_lite.Auth.OAuth.Callbacks.{match_redirect}
use letkite_lite.Auth.OAuth.Cookies.{Checked, ok, raised, current_subject}
use letkite_lite.Auth.OAuth.Narrowing.{mem-keep, norm_scopes-allowed, words-unwords-keep}
use letkite_lite.Auth.OAuth.Authorize.{
  AuthorizeRequest, bounce_code, redirect_ok, resolve_client, picked, code_fields, approve,
  with_subject, request_error, after_checks, for_client, authorize,
}

scope_of :
    (x : External) (c : Settings) (h : String) (req : AuthorizeRequest) (subject : String)
    (granted : List String)
    → (new_code h (code_fields x c req subject granted)).scope ≡ unwords granted
unfolding new_code code_fields
scope_of x c h req subject granted = refl

some-injective : {A : Type 0} → (a b : A) → some a ≡ some b → a ≡ b
some-injective a b e = ground (arith, e)

scopes-IsWord : All IsWord scopes
unfolding words
scopes-IsWord = words-IsWord "fleet.read fleet.exec fleet.write fleet.admin"

module _ (x : External) (c : Settings) where
  -- The scope that a request is offered.
  abbrev pub offered : AuthorizeRequest → String
  offered req = norm_scopes (form_get "scope" req.params) scopes

  -- All that has been checked when a code is handed out.
  pub record Approved (req : AuthorizeRequest) (w w' : World) (uri code : String) : Type 0 where
    pub meta : Metadata
    pub subject : String
    pub resolved :
        (resolve_client x c (form_get "client_id" req.params) req.clock w.store).0 ≡ some meta
    pub same_uri : uri ≡ form_get "redirect_uri" req.params
    pub registered :
        match_redirect x.urlparse x.urlunparse
          (form_get "redirect_uri" req.params)
          meta.redirect_uris
        ≡ true
    pub allowed :
        redirect_ok x c
          (form_get "redirect_uri" req.params)
          (resolve_client x c (form_get "client_id" req.params) req.clock w.store).1
        ≡ true
    pub well_formed : request_error x c req.params ≡ none
    pub by_post : req.is_post ≡ true
    pub approval : form_get "_action" req.params ≡ "approve"
    pub logged_in :
        current_subject x req.cookie req.clock
          (resolve_client x c (form_get "client_id" req.params) req.clock w.store).1
        ≡ ok (some subject)
    pub same_code : code ≡ req.fresh.code
    pub consented :
        any (λ s. not (s == "offline_access")) (picked x c req.params (offered req)) ≡ true
    pub stored :
        put_code x.sha req.fresh.code
          (code_fields x c req subject (picked x c req.params (offered req)))
          (resolve_client x c (form_get "client_id" req.params) req.clock w.store).1
        ≡ some w'.store

  approve-bounce :
      (req : AuthorizeRequest) (subject scope uri code : String) (w w' : World)
      → approve x c req subject scope w ≡ (bounce_code uri code, w')
      → (uri ≡ form_get "redirect_uri" req.params)
        × (code ≡ req.fresh.code)
        × (any (λ s. not (s == "offline_access")) (picked x c req.params scope) ≡ true)
        × (put_code x.sha req.fresh.code
              (code_fields x c req subject (picked x c req.params scope))
              w.store
            ≡ some w'.store)
  unfolding approve
  approve-bounce req subject scope uri code w w' e = ground arith

  with_subject-bounce :
      (req : AuthorizeRequest) (who : Checked (Option String)) (uri code : String) (w w' : World)
      → with_subject x c req who w ≡ (bounce_code uri code, w')
      → (subject : String) × (who ≡ ok (some subject))
        × (req.is_post ≡ true)
        × (form_get "_action" req.params ≡ "approve")
        × (approve x c req subject (offered req) w ≡ (bounce_code uri code, w'))
  with_subject-bounce req raised uri code w w' e = cc
  with_subject-bounce req (ok none) uri code w w' e = cc
  with_subject-bounce req (ok (some subject)) uri code w w' e = (
    subject,
    refl,
    ground arith,
    ground (arith, eq_iff (form_get "_action" req.params) "approve"),
    ground arith,
  )

  after_checks-bounce :
      (req : AuthorizeRequest) (o : Option ErrorCode) (uri code : String) (w w' : World)
      → after_checks x c req o w ≡ (bounce_code uri code, w')
      → (o ≡ none)
        × (with_subject x c req (current_subject x req.cookie req.clock w.store) w
            ≡ (bounce_code uri code, w'))
  after_checks-bounce req none uri code w w' e = (refl, e)
  after_checks-bounce req (some err) uri code w w' e = cc

  for_client-bounce :
      (req : AuthorizeRequest) (m : Option Metadata) (uri code : String) (w w' : World)
      → for_client x c req m w ≡ (bounce_code uri code, w')
      → (meta : Metadata) × (m ≡ some meta)
        × (match_redirect x.urlparse x.urlunparse
              (form_get "redirect_uri" req.params)
              meta.redirect_uris
            ≡ true)
        × (redirect_ok x c (form_get "redirect_uri" req.params) w.store ≡ true)
        × (after_checks x c req (request_error x c req.params) w ≡ (bounce_code uri code, w'))
  for_client-bounce req none uri code w w' e = cc
  for_client-bounce req (some meta) uri code w w' e =
      (meta, refl, ground arith, ground arith, ground arith)

  -- A code is handed out only to a request that has passed every check: a known client, a callback
  -- that it registered and that the server allows, PKCE and the resource, a signed-in user who
  -- approved by POST and ticked at least one scope.
  pub authorize-Approved :
      (req : AuthorizeRequest) (w w' : World) (uri code : String)
      → authorize x c req w ≡ (bounce_code uri code, w')
      → Approved req w w' uri code
  unfolding authorize
  authorize-Approved req w w' uri code e =
      let found = resolve_client x c (form_get "client_id" req.params) req.clock w.store in
      let between : World = record w { store = found.1 } in
      let (meta, resolved, registered, allowed, rest) =
        for_client-bounce req found.0 uri code between w' e in
      let (well_formed, rest') =
        after_checks-bounce req (request_error x c req.params) uri code between w' rest in
      let (subject, logged_in, by_post, approval, rest'') =
        with_subject-bounce req (current_subject x req.cookie req.clock found.1) uri code between w'
          rest' in
      let (same_uri, same_code, consented, stored) =
        approve-bounce req subject (offered req) uri code between w' rest'' in
      record {
        meta = meta;
        subject = subject;
        resolved = resolved;
        same_uri = same_uri;
        registered = registered;
        allowed = allowed;
        well_formed = well_formed;
        by_post = by_post;
        approval = approval;
        logged_in = logged_in;
        same_code = same_code;
        consented = consented;
        stored = stored;
      }

  -- Where PKCE is required, a code is handed out only for a challenge with method S256.
  pub authorize-requires_pkce :
      (req : AuthorizeRequest) (w w' : World) (uri code : String)
      → c.require_pkce ≡ true
      → authorize x c req w ≡ (bounce_code uri code, w')
      → (form_get "code_challenge_method" req.params ≡ "S256")
        × (form_get "code_challenge" req.params ≢ "")
  authorize-requires_pkce req w w' uri code strict e =
      pkce_demanded req.params strict (authorize-Approved req w w' uri code e).well_formed
    where
      pkce_demanded :
          (p : Form)
          → c.require_pkce ≡ true
          → request_error x c p ≡ none
          → (form_get "code_challenge_method" p ≡ "S256") × (form_get "code_challenge" p ≢ "")
      pkce_demanded p strict' fine =
          unfold request_error in
          ground (
            arith,
            eq_iff (form_get "code_challenge_method" p) "S256",
            eq_iff (form_get "code_challenge" p) "",
          )

  -- Each scope in the row that is stored with a code is one that the server offers or offline_access, and the user has
  -- ticked its box unless it is offline_access.
  pub authorize-scope :
      (req : AuthorizeRequest) (w w' : World) (uri code s : String) (row : CodeRow)
      → authorize x c req w ≡ (bounce_code uri code, w')
      → find (has_code_hash (x.sha code)) w'.store.auth_codes ≡ some row
      → mem s (words row.scope) ≡ true
      → ((mem s scopes ≡ true) ⊎ (s ≡ "offline_access"))
        × ((s ≡ "offline_access") ⊎ (form_get (String.◌++◌ "scope_" s) req.params ≢ ""))
  unfolding picked
  authorize-scope req w w' uri code s row e found inside =
      let a = authorize-Approved req w w' uri code e in
      let ticked : String → Bool =
        λ t. t == "offline_access" || non_empty (form_get (String.◌++◌ "scope_" t) req.params) in
      let fields = code_fields x c req a.subject (keep ticked (words (offered req))) in
      let here =
        put_code-found x.sha req.fresh.code fields
          (resolve_client x c (form_get "client_id" req.params) req.clock w.store).1 w'.store
          a.stored in
      let same : find (has_code_hash (x.sha req.fresh.code)) w'.store.auth_codes ≡ some row =
        ap (λ k. find (has_code_hash (x.sha k)) w'.store.auth_codes) (sym a.same_code) ∙ found in
      let is_new : row ≡ new_code (x.sha req.fresh.code) fields =
        some-injective row (new_code (x.sha req.fresh.code) fields) (sym same ∙ here) in
      let scope : row.scope ≡ unwords (keep ticked (words (offered req))) =
        ap (λ r. r.scope) is_new
        ∙ scope_of x c (x.sha req.fresh.code) req a.subject (keep ticked (words (offered req))) in
      let (asked, pass) =
        mem-keep s ticked (words (offered req))
          (rw (words-unwords-keep ticked (offered req)) at (rw scope at inside)) in
      (
        norm_scopes-allowed (form_get "scope" req.params) s scopes scopes-IsWord asked,
        ground (
          arith,
          eq_iff s "offline_access",
          eq_iff (form_get (String.◌++◌ "scope_" s) req.params) "",
        ),
      )
