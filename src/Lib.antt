-- ===== src/Lib.antt =====
-- The core of the InHive VPN client: what the builder of configurations and the service around the
-- engine do.
--
-- Parts and files:
-- * Config models the builder of v2/config. `Config.Build.build_config` is `BuildConfig` of
--   v2/config/builder.go, composed as there: `set_experimental`, `set_log` and `set_inbound`
--   (Config/Inbounds, v2/config/builder_inbound.go), `set_outbounds` (Config/Outbounds/Assemble and its
--   child Collect, v2/config/builder_outbound.go, with Config/Outbounds/Patch for v2/config/outbound.go
--   and Config/Warp for v2/config/warp.go), `set_dns` (Config/Dns and Config/Dns/Server,
--   v2/config/dns.go) and `set_routing_options` (Config/Route, v2/config/builder_route.go). The state is
--   the options record, passed from one to the next, with the settings that `setOutbounds` changes
--   through its pointer and the variable `OutboundMainDetour`.
-- * Config/Helpers models v2/config/builder_helpers.go, Config/Settings v2/config/inhive_option.go and
--   Config/Tags the constants of v2/config/builder.go.
-- * Config/Reading models v2/config/config.go, and Config/Formats v2/config/parser.go: JSON of sing-box,
--   share links and Clash are tried in this order, with the error of the first kept as a value.
-- * Config/SingBox has sing-box's option structs, with the fields that the builder reads or writes.
-- * Hcore/State models the instance of v2/hcore/static_data.go and the reports of v2/hcore/coreinfo.go
--   and v2/hcore/custom.go; Hcore/Service the start, the stop and the engine's creation (v2/hcore/start.go,
--   stop.go, service.go); Hcore/LastStart the stored request of v2/hcore/start.go; Hcore/Pause
--   v2/hcore/pause.go; Hcore/Watcher v2/hcore/urltest_watcher.go; Hcore/Probe
--   v2/hcore/probe_helpers.go. The service starts what the builder returns: `Hcore.Service.built` calls
--   `build_config`. Hcore/Commands models v2/hcore/commands.go, with hot-add and hot-remove in its child
--   HotAdd; the state is that of sing-box's managers. Hcore/CoreLog models v2/hcore/log_file.go, and
--   Hcore/Settings `ChangeInhiveSettings` of v2/hcore/buildconfighelper.go with v2/hcore/log_level.go.
--   Hcore/Side models v2/hcore/independent_instance.go, which builds with `build_config` too;
--   Hcore/Side/Race is the race of `runInstanceCore` as a step relation on the worker, the caller and the
--   clock. Hcore/UrlTestConfig models v2/hcore/url_test_config.go over Hcore/Probe, and Hcore/SpeedTest
--   v2/hcore/speedtest.go.
-- * Share models xray2sing/ray2sing: Share/Lines the lines of a subscription (hb64.go, spliter.go),
--   Share/Links the tables and Share/Convert the loops of convert.go, with the counter and the detour of a
--   chain passed as state; Share/Url models url_schema.go; Share/Query, Share/Tls and Share/Transport model
--   common.go, where the map of the parameters is passed on with the ALPN that the transport writes into
--   it; Share/Parsers models vless.go and trojan.go, Share/Tuic tuic.go, Share/Vmess vmess.go, and
--   Share/Awg awg.go, with Share/Awg/Text for texts of wg-quick, whose loop keeps the variables as a
--   record, and Share/Awg/Link for links.
-- * Tests has runs on samples.
--
-- Conventions: a fallible call returns an `Outcome`: its value, an error, or a panic. Go's `uint`
-- and `time` values are natural numbers; times are in nanoseconds. All functions are total by
-- structural recursion. `resolve_from` counts the eight rounds of its loop in the source.
-- `url_test` has a bound on its open calls, which two calls do not meet.
--
-- Parameters: Config/Env has what the builder asks of Go's parsers, the resolver, random values,
-- the platform and sing-box's rule check; `Hcore.Service.World` has the answers of the engine, of
-- the platform and of the reader of raw configurations during a call; `Hcore.LastStart.Table` is
-- the key-value store; `Hcore.Probe.Network` the network during a probe; `Hcore.Commands.Box` the
-- managers of a running box; `Config.Reading.Decoder` the JSON decoders and the file that is read;
-- `Config.Formats.Library.Formats` the decoders, sing's batch, the conversions and sing-box's check;
-- `Hcore.CoreLog.FileSystem` the answers of the file system in a step of the log;
-- `Hcore.Side.SideWorld` the start of an instance, `Hcore.UrlTestConfig.TestWorld` and
-- `Hcore.SpeedTest.SpeedWorld` the network and the clock of a test; `Hcore.Settings.Codec` the
-- decoding and printing of the settings; `Share.Library.Library` Go's libraries,
-- `Share.Vmess.VmessLibrary` the JSON of VMess links, and `Share.Links.Links` the parsers of
-- single links and the readers of containers in a conversion.
-- `Env.get_ips` is the answer of `getIPs` at the time of the build.
--
-- Not modelled: the decoding of JSON, the readers of containers and the parsers of the other link
-- formats (xray2sing), the gRPC surface, the
-- streams of log lines and the memory sampler, the status and the listings of a running engine, and
-- the platform bindings. The locks of the instance are not modelled: each call is one step, so a
-- stop that aborts a start in flight is outside the model. A second call of CloseService, after
-- a panic of the first, is taken to return. The order in which the look-ups of
-- `getIPs` answer is fixed.
mod Prelude
pub mod Config
pub mod Hcore
pub mod Share
mod Tests
