-- ===== src/Config/Templates.antt =====
-- The interpolation of commands, environments and actions: `expandValue`, `expandCommand`,
-- `expandLaunch`, the endpoint of `templateValues`, and `expandFields` on an action.
use ooth.Prelude.{
  Bool, not, ◌||◌, ◌==◌, Option, none, some, List, [], ◌∷◌, if◌then◌else◌, is_empty, is_some, any,
  Result, ok, err, ◌>>=◌, ◌>>◌, refuse_if,
}
use ooth.Prelude.Texts.{Text, codes, text_eq, starts_with, contains_text}
use ooth.Prelude.Maps.{lookup, insert}
use ooth.Config.App.{App, HttpRequest, SocketCheck, Action}
use ooth.Config.Libraries.{Endpoint, Libraries}

pub data TemplateError : Type 0 where
  invalid_template nul_expanded duplicate_key no_executable invalid_address : TemplateError

-- The name of the field, which only the messages of the errors show, is left out.
unfoldable pub rendered : Option Text → Result TemplateError Text
rendered none = err invalid_template
rendered (some s) = if any (λ c. c == 0) s then err nul_expanded else ok s

module _ (libraries : Libraries) where
  -- `filepath.ToSlash`, and a slash in front.
  unfoldable pub unix_path : Text → Text
  unix_path address =
      let path = libraries.to_slash address in
      if starts_with (codes "/") path then path else b'/' ∷ path

  unfoldable pub tcp_endpoint : Text → Text → Option (Text × Text) → Result TemplateError Endpoint
  tcp_endpoint network address none = err invalid_address
  tcp_endpoint network address (some (host, port)) = ok (record {
    network = network;
    address = address;
    path = none;
    host = some host;
    port = some port;
    url = libraries.host_url (codes "tcp") address;
  })

  unfoldable pub endpoint : App → Text → Result TemplateError (Option Endpoint)
  unfolding unix_path tcp_endpoint
  endpoint app address =
      if is_empty app.listen.network
      then ok none
      else if text_eq app.listen.network (codes "unix")
      then ok (
          some (record {
            network = app.listen.network;
            address = address;
            path = some address;
            host = none;
            port = none;
            url = libraries.path_url (codes "unix") (unix_path address);
          }))
      else (do
        e ← tcp_endpoint app.listen.network address (libraries.split_host_port address)
        ok (some e))

  unfoldable pub resolve : Text → Text → Text
  resolve directory path =
      if libraries.is_abs path then libraries.clean path else libraries.join directory path

-- One evaluator for all fields: `expand` is `expandValue` with its values.
unfoldable pub expand_value : (Text → Option Text) → Text → Result TemplateError Text
unfolding rendered
expand_value render value =
    if not (contains_text (codes "{{") value) then ok value else rendered (render value)

module _ (expand : Text → Result TemplateError Text) where
  unfoldable pub expand_texts : List Text → Result TemplateError (List Text)
  expand_texts [] = ok []
  expand_texts (value ∷ rest) = do
    value' ← expand value
    rest' ← expand_texts rest
    ok (value' ∷ rest')

  -- The loop over the environment of a command: its keys stay.
  unfoldable pub expand_env : List (Text × Text) → Result TemplateError (List (Text × Text))
  expand_env [] = ok []
  expand_env ((key, value) ∷ rest) = do
    value' ← expand value
    rest' ← expand_env rest
    ok ((key, value') ∷ rest')

  -- A map of `expandFields`, onto the entries that the copy has already.
  unfoldable pub expand_map :
      List (Text × Text) → List (Text × Text) → Result TemplateError (List (Text × Text))
  expand_map clone [] = ok clone
  expand_map clone ((key, value) ∷ rest) = do
    key' ← expand key
    value' ← expand value
    refuse_if (is_some (lookup key' clone)) duplicate_key
    expand_map (insert key' value' clone) rest

  unfoldable pub expand_check : Option SocketCheck → Result TemplateError (Option SocketCheck)
  expand_check none = ok none
  expand_check (some check) = do
    address' ← expand check.address
    send' ← expand check.send
    ok (some (record { address = address'; send = send' }))

  unfoldable pub expand_http : Option HttpRequest → Result TemplateError (Option HttpRequest)
  unfolding expand_map
  expand_http none = ok none
  expand_http (some request) = do
    url' ← expand request.url
    method' ← expand request.method
    headers' ← expand_map [] request.headers
    body' ← expand request.body
    unix_socket' ← expand request.unix_socket
    ok (
        some (record {
          url = url';
          method = method';
          headers = headers';
          body = body';
          unix_socket = unix_socket';
        }))

  -- Every text of an action, in the order of the fields; numbers stay.
  unfoldable pub expand_action : Action → Result TemplateError Action
  expand_action action = do
    command' ← expand_texts action.command
    env' ← expand_map [] action.env
    directory' ← expand action.directory
    http' ← expand_http action.http
    tcp' ← expand_check action.tcp
    udp' ← expand_check action.udp
    contains' ← expand action.expect.contains
    regexp' ← expand action.expect.regexp
    ok (record action {
      command = command';
      env = env';
      directory = directory';
      http = http';
      tcp = tcp';
      udp = udp';
      expect = record action.expect { contains = contains'; regexp = regexp' };
    })

-- `strings.ContainsAny(s, "/\\")`
abbrev pub has_slash : Text → Bool
has_slash s = any (λ c. c == b'/' || c == b'\\') s

module _ (libraries : Libraries) where
  unfoldable pub resolved_command : Text → List Text → Result TemplateError (List Text)
  resolved_command directory [] = err no_executable
  resolved_command directory (program ∷ arguments) =
      if is_empty program
      then err no_executable
      else if has_slash program
      then ok (resolve libraries directory program ∷ arguments)
      else ok (program ∷ arguments)

  unfoldable pub expand_command :
      (Text → Result TemplateError Text)
      → App
      → Result TemplateError (List Text × List (Text × Text))
  unfolding resolved_command
  expand_command expand app = do
    command ← expand_texts expand app.command
    command' ← resolved_command app.directory command
    env' ← expand_env expand app.env
    ok (command', env')

  unfoldable pub expand_launch : App → Text → Result TemplateError (List Text × List (Text × Text))
  expand_launch app address = do
    e ← endpoint libraries app address
    expand_command (expand_value (libraries.render app e)) app
