-- ===== src/Config/Libraries.antt =====
-- What the configuration takes from the operating system and from libraries: the rendering of
-- templates, the reading of addresses, URLs and regular expressions, and the functions on paths.
use ooth.Prelude.{Bool, Option}
use ooth.Prelude.Texts.{Text}
use ooth.Schedule.Times.{Duration}
use ooth.Config.App.{App}

-- The entry `listen` of the values that a template reads.
pub record Endpoint : Type 0 where
  pub network : Text
  pub address : Text
  pub path : Option Text
  pub host : Option Text
  pub port : Option Text
  pub url : Text

pub record Libraries : Type 0 where
  -- runtime.GOOS
  pub goos : Text
  -- text/template, on the values of an app and its endpoint; `none` is an error
  pub render : App → Option Endpoint → Text → Option Text
  -- net.SplitHostPort
  pub split_host_port : Text → Option (Text × Text)
  -- url.URL.String for a scheme and a host, and for a scheme and a path
  pub host_url : Text → Text → Text
  pub path_url : Text → Text → Text
  -- whether regexp.Compile succeeds
  pub compiles : Text → Bool
  -- the scheme and the host of http.NewRequest for a method and a URL
  pub request_target : Text → Text → Option (Text × Text)
  pub parse_duration : Text → Option Duration
  -- path/filepath
  pub is_abs : Text → Bool
  pub clean : Text → Text
  pub join : Text → Text → Text
  pub dir : Text → Text
  pub base : Text → Text
  pub to_slash : Text → Text
