-- ===== src/App/Build.antt =====
-- What is built from a configuration that `Validate` has accepted.
use redis_watcher.Base.{
  ℕ, suc, Bool, true, false, List, [], ◌∷◌, none, ◌≡◌, inl, inr, refl, arith, ◌∙◌, sym, map, ◌&&◌,
  ◌||◌, not,
}
use mathlib.Core.Path.{subst}
use redis_watcher.Base.Bytes.{Bytes, codes, is_empty, eq_bytes, eq_bytes_iff}
use redis_watcher.Base.Lists.{All}
use redis_watcher.Base.Results.{Result, ok, bind-eq-ok}
use redis_watcher.Base.Tests.{if◌then◌else◌, Bool-cases}
use redis_watcher.Alert.Engine.{Engine}
use redis_watcher.Config.{Config, OutputConfig}
use redis_watcher.Config.Validate.{
  ConfigError, validate, validate_kind, validate_format, validate_output, validate_outputs,
}
use redis_watcher.Config.Stable.{output_enabled}
use redis_watcher.Config.Validated.{validate-parts}
use redis_watcher.Go.Int.{pos, default_time}
use redis_watcher.Go.Text.{Unicode}
use redis_watcher.Output.{Consumer, new_consumer}
use redis_watcher.Output.Network.{NetSink, new_net_sink}
use redis_watcher.Output.Sinks.{Sink, sink_name, new_file_sink}
use redis_watcher.App.{
  net_options, file_options, build_sink, build_consumers, build_outputs, some_of, size,
}

-- The types of the enabled outputs.
unfoldable pub enabled_kinds : List OutputConfig → List Bytes
enabled_kinds [] = []
enabled_kinds (o ∷ os) = if o.enabled then o.kind ∷ enabled_kinds os else enabled_kinds os

validate_format-kind :
    (i : ℕ) (o o' : OutputConfig)
    → validate_format i o ≡ ok o'
    → (o'.kind ≡ o.kind) × (o'.address ≡ o.address)
unfolding validate_format
validate_format-kind i o o' h = (ground arith, ground arith)

-- The sink of an output is made, and is called by the output's type.
abbrev Makes : OutputConfig → Type 0
Makes o = (s : Sink) × (build_sink o ≡ ok s) × (sink_name s ≡ o.kind)

-- A type that is known, with an address where it needs one.
abbrev complete : Bytes → Bytes → Bool
complete kind address =
    eq_bytes kind (codes "stdout")
    || (eq_bytes kind (codes "file")
        || ((eq_bytes kind (codes "udp") || eq_bytes kind (codes "tcp")) && not (is_empty address)))

new_net_sink-made :
    (o : OutputConfig)
    → (eq_bytes o.kind (codes "udp") || eq_bytes o.kind (codes "tcp")) ≡ true
    → is_empty o.address ≡ false
    → (s : NetSink) × (new_net_sink (net_options o) ≡ ok s) × (s.opts.network ≡ o.kind)
unfolding new_net_sink
new_net_sink-made o kind address = (
  record {
    opts = record (net_options o) { timeout = default_time o.timeout (pos 5_000_000_000) };
    conn = none;
  },
  ground arith,
  refl,
)

build_sink-net :
    (o : OutputConfig)
    → eq_bytes o.kind (codes "stdout") ≡ false
    → eq_bytes o.kind (codes "file") ≡ false
    → complete o.kind o.address ≡ true
    → Makes o
unfolding build_sink
build_sink-net o other other' whole =
    let (s, made, name) = new_net_sink-made o (ground arith) (ground arith) in
    (Sink.net s, ground arith, name)

complete-Makes : (o : OutputConfig) → complete o.kind o.address ≡ true → Makes o
unfolding build_sink
complete-Makes o whole = elim (Bool-cases (eq_bytes o.kind (codes "stdout"))) [
  | inl out ↦
      (Sink.stdout o.format, ground arith, sym ((eq_bytes_iff o.kind (codes "stdout")).0 out))
  | inr other ↦ elim (Bool-cases (eq_bytes o.kind (codes "file"))) [
    | inl to_file ↦ (
      Sink.file (new_file_sink (file_options o)),
      ground arith,
      sym ((eq_bytes_iff o.kind (codes "file")).0 to_file),
    )
    | inr other' ↦ build_sink-net o other other' whole
  ]
]

validate_kind-complete :
    (i : ℕ) (o o' : OutputConfig) → validate_kind i o ≡ ok o' → complete o'.kind o'.address ≡ true
unfolding validate_kind
validate_kind-complete i o o' h = ground arith

validate_output-Makes :
    (i : ℕ) (o o' : OutputConfig) → validate_output i o ≡ ok o' → o'.enabled ≡ true → Makes o'
validate_output-Makes i o o' h on = elim (Bool-cases o.enabled) [
  | inr off ↦ absurd (off_on off)
  | inl enabled ↦
      let (mid, kind, format) =
        bind-eq-ok (validate_kind i o) (validate_format i) (sym (output_enabled i o enabled) ∙ h) in
      let (same_kind, same_address) = validate_format-kind i mid o' format in
      let whole = validate_kind-complete i o mid kind in complete-Makes o' cc
]
  where
    off_on : o.enabled ≡ false → ⊥
    off_on off = unfold validate_output in ground arith

-- The consumers of a list of outputs, with their sinks.
abbrev Built : ℕ → Bool → List OutputConfig → Type 0
Built buffer drop os =
    (cs : List (Sink × Consumer)) × (build_consumers buffer drop os ≡ ok cs)
    × (map (λ c. sink_name c.0) cs ≡ enabled_kinds os)
    × All (λ c. c.1 ≡ new_consumer buffer drop) cs

build_consumers-disabled :
    (buffer : ℕ) (drop : Bool) (o : OutputConfig) (os : List OutputConfig)
    → o.enabled ≡ false
    → Built buffer drop os
    → Built buffer drop (o ∷ os)
unfolding build_consumers enabled_kinds
build_consumers-disabled buffer drop o os off (cs, b, n, a) = (cs, ground arith, ground arith, a)

build_consumers-enabled :
    (buffer : ℕ) (drop : Bool) (o : OutputConfig) (os : List OutputConfig)
    → o.enabled ≡ true
    → Makes o
    → Built buffer drop os
    → Built buffer drop (o ∷ os)
unfolding build_consumers enabled_kinds
build_consumers-enabled buffer drop o os on (s, made, name) (cs, b, n, a) =
    ((s, new_consumer buffer drop) ∷ cs, ground arith, ground arith, (refl, a))

validate_outputs-Built :
    (buffer : ℕ) (drop : Bool) (os os' : List OutputConfig) (i : ℕ)
    → validate_outputs i os ≡ ok os'
    → Built buffer drop os'
unfolding validate_outputs
validate_outputs-Built buffer drop [] [] i h =
    unfold build_consumers enabled_kinds in ([], refl, refl, tt)
validate_outputs-Built buffer drop [] (o ∷ os) i h = absurd (no_outputs h)
  where
    no_outputs : ◌≡◌ {A = Result ConfigError (List OutputConfig)} (ok []) (ok (o ∷ os)) → ⊥
    no_outputs k = cc
validate_outputs-Built buffer drop (o ∷ os) os' i h =
    let (o', one, later) = bind-eq-ok (validate_output i o) _ h in
    let (rest, more, done) = bind-eq-ok (validate_outputs (suc i) os) _ later in
    let same : (o' ∷ rest) ≡ os' = cc in
    let built = validate_outputs-Built buffer drop os rest (suc i) more in
    subst (Built buffer drop) same (elim (Bool-cases o'.enabled) [
      | inl on ↦
          build_consumers-enabled buffer drop o' rest on (validate_output-Makes i o o' one on) built
      | inr off ↦ build_consumers-disabled buffer drop o' rest off built
    ])

-- From an accepted configuration the outputs are always built, one consumer with its sink for each
-- enabled output, in order, its sink called by the output's type and each consumer new: no type,
-- network or address is left for the builder to refuse.
pub build_outputs-validate :
    (u : Unicode) (c c' : Config)
    → validate u c ≡ ok c'
    → (cs : List (Sink × Consumer)) × (build_outputs c' ≡ ok (some_of cs))
      × (map (λ x. sink_name x.0) cs ≡ enabled_kinds c'.outputs)
      × All (λ x. x.1 ≡ new_consumer (size c'.pipeline.consumer_buffer) c'.pipeline.drop_on_full) cs
unfolding build_outputs
build_outputs-validate u c c' h =
    let (r, o, a, p) = validate-parts u c c' h in
    let (cs, b, n, all) =
      validate_outputs-Built (size c'.pipeline.consumer_buffer) c'.pipeline.drop_on_full c.outputs
        c'.outputs 0 o in
    (cs, rw b refl, n, all)
