-- ===== src/Lib.antt =====
-- A model of the browser code of cyberstalk-me: the public page (web/src), which shows what the owner
-- is doing on each device, and the configuration page of the Windows agent
-- (client-windows/webui/src), which edits the rules that say what is shown; and of the part of the
-- agent (client-windows/internal) that answers that page and applies those rules.
--
-- The public page takes two kinds of input, both through the guards of types/contract.ts: snapshots
-- and stream messages, which useDeviceStream folds into a list of devices, and usage payloads, which
-- useUsage requests for one window at a time and UsagePanel shows. The configuration page talks to the
-- agent through lib/api.ts and holds one draft: the components edit it through lib/rules.ts, useDraft
-- pushes it to the agent after a pause, and App.tsx saves it; DangerZone guards the one edit that
-- publishes window titles. The agent validates what is pushed, compiles its rules, writes it, and
-- resolves a foreground window to what is reported.
--
-- Files, and the code that each is about:
--   Base, Numbers   shared names; lists, texts as UTF-16 code units, JavaScript numbers
--   Api             client-windows/webui/src/types/api.ts
--   Rules           client-windows/webui/src/lib/rules.ts: patternsOf is patterns_of, and so on
--   Confirm         client-windows/webui/src/lib/confirm.ts
--   DangerZone      client-windows/webui/src/components/DangerZone.tsx, its events as act
--   RuleEditor      client-windows/webui/src/components/RuleEditor.tsx, its controls as apply;
--                   RuleEditor.PatternTest is its hook usePatternTest
--   ConfigPage      client-windows/webui/src/hooks/useDraft.ts and App.tsx: the page as a record, each
--                   handler up to its await and each answer as an event of step
--   Wire            web/src/types/contract.ts: JSON values, guards, casts and parsers
--   Stream          web/src/hooks/useDeviceStream.ts, its handlers and answers as events of step
--   Format          web/src/lib/format.ts
--   Usage           web/src/hooks/useUsage.ts, its runs and answers as events of step; Usage.Share is
--                   web/src/lib/usage.ts, Usage.Charts and Usage.Panel are the usage components
--   Cards           web/src/components/DeviceCard.tsx and BatteryIndicator.tsx, and the views of
--                   web/src/App.tsx
--   Site            web/src/App.tsx: the stream above the tabs, the statistics inside one; the panel's
--                   own state is that of web/src/components/UsagePanel.tsx
--   Snippet         client-windows/webui/src/lib/register.ts
--   Recency         client-windows/webui/src/lib/time.ts
--   Client          client-windows/webui/src/lib/api.ts: Calls what is sent, Answers what comes back,
--                   Frames the loops of streamCatalog
--   Settings        client-windows/webui/src/components/ConnectionSettings.tsx, AdvancedSettings.tsx
--   Discovery       client-windows/webui/src/components/DiscoveryPanel.tsx, hooks/useCatalog.ts
--   PreviewBar      client-windows/webui/src/components/PreviewBar.tsx, hooks/usePreview.ts
--   Agent           client-windows/internal: Mapping is mapping/mapping.go, Config is
--                   config/config.go, Setup is setup/draft.go and the handlers of setup/server.go,
--                   Catalog is setup/catalog.go with its stream, PatternTest setup/suggest.go, Guard
--                   setup/guard.go, with Guard.Passes about the page's calls; Exposure, Warnings,
--                   Refused, Renamed, Pushed and Held are about the page and the agent together
--   Examples        tests, and the theorems at concrete inputs
--
-- Choices. A name of the code is spelled in snake_case. A missing value (null, undefined, -1) is none.
-- JSON.stringify, JSON.parse, Date.parse, String and localeCompare are parameters; the last is only
-- assumed to be a total preorder. The tabs library is one too, assumed to render the chosen tab alone.
-- The catalog stream is the text chunks that the decoder gives. Lower case is that of ASCII, Latin-1,
-- Cyrillic and full-width letters. Numbers are exact thousandths, so rounding to doubles is not
-- modelled. Percentages are exact quotients. Requests are events: an answer may come at any time and
-- in any order. In ConfigPage the agent is an environment: it holds the last draft that it answered
-- and whose durations it reads, which is a parameter, and a file; Agent.Held compares what it holds
-- with the agent's own handler, and Agent.Pushed has the agent's own answers in its place. Of Go,
-- regexp.Compile, url.Parse, time.ParseDuration, Atoi, quoting, the text of a duration, sort.Slice,
-- EqualFold, QuoteMeta and the JSON of a snapshot are parameters; durations and counts of seconds are
-- int64, with their wrap. Go's strings are taken to be the texts that the page sends, and ToLower and
-- toLowerCase to agree; white space is each language's own. Every function is
-- structurally recursive but two, which take fuel: the printing of a number n has n + 1, at least its
-- number of digits, and the loop over the frames of a buffer has the buffer's length, of which each
-- round takes two or more.
--
-- Not modelled: markup, icons, class names and animation; keys that every object inherits, in the
-- label tables; the open state of the rows of the app list, which a library keeps; the Go server; of
-- the agent, the YAML file and the disk, routing, the idle timeout, and the collection and the reports
-- of a session.
pub mod Base
pub mod Api
pub mod Rules
pub mod Confirm
pub mod DangerZone
pub mod RuleEditor
pub mod ConfigPage
pub mod Numbers
pub mod Wire
pub mod Stream
pub mod Format
pub mod Usage
pub mod Snippet
pub mod Cards
pub mod Recency
pub mod Client
pub mod Settings
pub mod Discovery
pub mod PreviewBar
pub mod Site
pub mod Agent
mod Examples
