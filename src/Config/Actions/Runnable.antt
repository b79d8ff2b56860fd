-- ===== src/Config/Actions/Runnable.antt =====
-- An expanded action that can be run, in words of its own, and the tests that ask for it.
use ooth.Prelude.{
  ◌≡◌, ◌≢◌, ◌⊎◌, inl, inr, refl, sym, true, false, not, ◌||◌, Option, none, some, [], is_empty,
  is_some, ok, refuse_if-passed, Bool-cases,
}
use mathlib.Core.Bool.{false≢true}
use ooth.Prelude.Texts.{Text, codes, text_eq, text_eq_iff}
use ooth.Config.App.{HttpRequest, SocketCheck, Action}
use ooth.Config.Libraries.{Libraries}
use ooth.Config.Validation.Refusals.{
  ||-false_iff, &&-false_iff, same_iff, filled_iff, is_empty-false_iff, not_iff, refuse_if_iff,
}
use ooth.Config.Actions.{bad_request, bad_http, bad_check, check_expanded}

module _ (libraries : Libraries) where
  -- An address with a host and a port.
  abbrev pub IsTarget : Text → Type 0
  IsTarget address = (target : Text × Text) × (libraries.split_host_port address ≡ some target)

  -- A request over HTTP or HTTPS to some host.
  abbrev pub IsRequest : HttpRequest → Type 0
  IsRequest request =
      (scheme : Text) × (host : Text) × (libraries.request_target request.method request.url
        ≡ some (scheme, host))
      × ((scheme ≡ codes "http") ⊎ (scheme ≡ codes "https"))
      × (host ≢ [])

  pub record IsRunnable (action : Action) : Type 0 where
    pub regexp : action.expect.regexp ≢ [] → libraries.compiles action.expect.regexp ≡ true
    pub http : (request : HttpRequest) → action.http ≡ some request → IsRequest request
    pub tcp : (check : SocketCheck) → action.tcp ≡ some check → IsTarget check.address
    pub udp : (check : SocketCheck) → action.udp ≡ some check → IsTarget check.address

  request_passed :
      (target : Option (Text × Text))
      → bad_request target ≡ false
      → (scheme : Text) × (host : Text) × (target ≡ some (scheme, host))
        × ((scheme ≡ codes "http") ⊎ (scheme ≡ codes "https"))
        × (host ≢ [])
  unfolding bad_request
  request_passed none h = absurd (false≢true (sym h))
  request_passed (some (scheme, host)) h =
      let (known, filled) =
        (||-false_iff (not (text_eq scheme (codes "http") || text_eq scheme (codes "https")))
            (is_empty host) (same_iff _ _) (is_empty-false_iff host)).0
          h in
      (scheme, host, refl, scheme_passed scheme known, filled)
    where
      scheme_passed :
          (s : Text)
          → not (text_eq s (codes "http") || text_eq s (codes "https")) ≡ false
          → (s ≡ codes "http") ⊎ (s ≡ codes "https")
      scheme_passed s known = elim (Bool-cases (text_eq s (codes "http"))) [
        | inl plain ↦ inl ((text_eq_iff s (codes "http")).0 plain)
        | inr other ↦ elim (Bool-cases (text_eq s (codes "https"))) [
          | inl safe ↦ inr ((text_eq_iff s (codes "https")).0 safe)
          | inr neither ↦ absurd (false≢true (sym (rw (other, neither) at known)))
        ]
      ]

  target_passed :
      (found : Option (Text × Text))
      → not (is_some found) ≡ false
      → (target : Text × Text) × (found ≡ some target)
  target_passed none h = absurd (false≢true (sym h))
  target_passed (some target) h = (target, refl)

  http_passed :
      (given : Option HttpRequest) (request : HttpRequest)
      → bad_http libraries given ≡ false
      → given ≡ some request
      → IsRequest request
  unfolding bad_http
  http_passed given request h e = request_passed _ (rw (bad_http, e) at h)

  check_passed :
      (given : Option SocketCheck) (check : SocketCheck)
      → bad_check libraries given ≡ false
      → given ≡ some check
      → IsTarget check.address
  unfolding bad_check
  check_passed given check h e = target_passed _ (rw (bad_check, e) at h)

  pub check_expanded-IsRunnable :
      (expanded : Action) → check_expanded libraries expanded ≡ ok tt → IsRunnable expanded
  unfolding check_expanded
  check_expanded-IsRunnable expanded h =
      let (regexp, h1) = refuse_if-passed _ _ _ h in
      let (http, h2) = refuse_if-passed _ _ _ h1 in
      let (tcp, h3) = refuse_if-passed _ _ _ h2 in
      let udp = (refuse_if_iff (bad_check libraries expanded.udp) _ (same_iff _ _)).0 h3 in
      record {
        regexp =
            (&&-false_iff _ _ (filled_iff expanded.expect.regexp) (not_iff _ (same_iff _ _))).0
              regexp;
        http = λ request e. http_passed expanded.http request http e;
        tcp = λ check e. check_passed expanded.tcp check tcp e;
        udp = λ check e. check_passed expanded.udp check udp e;
      }
