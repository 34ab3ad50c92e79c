-- ===== src/Lib.antt =====
-- LiteNova: the web console of an API relay (web-src/web/src), and the TypeScript packages of its
-- new front end (frontend).
--
-- The console is a set of React components that call the server. This library models the tables
-- of channels, tokens, users, redemption codes and logs, the dashboard, the forms of a token
-- and of a channel, and the login; of the packages it models the transformation of raw usage into
-- the data of the usage dashboard, the configuration of a brand, and the toasts. The packages are
-- independent of one another and of the console. Paths below that begin with frontend are those
-- from the root of the repository, and the others those under web-src/web/src.
--
-- - Prelude: Boolean tests, lists and integers over the native numbers; `split(',')` and
--   `join(',')` on texts.
-- - Effects: what a handler shows, the reply that it awaits, and whether it ends or throws;
--   `showError` of helpers/utils.js.
-- - Paging: the page expressions of all tables, and ITEMS_PER_PAGE of
--   constants/common.constant.js.
-- - Times: `timestamp2string` of helpers/utils.js.
-- - Sorting: the sort of an array and the comparison of two cells.
-- - Listing: the state that the tables share, its updates, and its invariant. Refs is about arrays
--   of references, Valid and Keeps about the invariant, Laws and Pages about what a row and a page
--   hold after an update.
-- - Channels: components/ChannelsTable.js. The root has the handlers that load, page, refresh,
--   search and sort; Manage has those that act on a row, and the rest of the state. Sessions lets
--   renders and late replies follow on one another in any order.
-- - Tokens: components/TokensTable.js, with its links in Links.
-- - Users: components/UsersTable.js.
-- - Redemptions: components/RedemptionsTable.js.
-- - Logs: components/LogsTable.js.
-- - Dashboard: pages/Dashboard/index.js; Bars is its processModelBarData, with its theorem in
--   BarLaws.
-- - Sessions: context/User/reducer.js and components/PrivateRoute.js; Login is
--   components/LoginForm.js, OAuth is components/GitHubOAuth.js, components/LarkOAuth.js and
--   components/utils.js, and Countdown and Reset are components/PasswordResetForm.js.
-- - ChannelModels: the tables of models of helpers/utils.js, and the roles of the stored user.
-- - Sums and Grouping: the sum of a number over a list, and the loop that fills a Map; the usage
--   code and the dashboard share them.
-- - Usage: frontend/T-007-usage-dashboard/src/transforms/quota-transform.ts. The root has the keys
--   of time and `aggregateByTime`; Money has the rounding, Models what the name of a model says and
--   the filters, and Summary, Costs, Tokens, Analysis and Consumers one `compute…` function each,
--   with what is proved of it in SummaryLaws, CostLaws, TokenLaws, AnalysisLaws and ConsumerLaws.
--   Buckets and Weeks are about the buckets, and Upstream about the costs upstream.
-- - Brand: frontend/T-010-brand-customization/src/brand; Merge, Validate and Loader are
--   config-loader.ts, and Defaults is default-config.ts.
-- - Toasts: frontend/T-003-design-system/src/composables/use-toast.ts; Laws is about the state that
--   any sequence of calls and timers leaves, Fired about what is left when the timers are fired.
-- - EditToken: pages/Token/EditToken.js, with its submit in Submit; Edits lists what its user may do
--   besides choosing the models.
-- - EditChannel: pages/Channel/EditChannel.js, with its inputs in Fields and its submit in Submit;
--   Sent says what is to be sent, field by field.
--
-- How the code is modelled. A component's state is a record, and a handler is a function from the
-- state in which its awaited reply arrives to an outcome: `done`, or `threw` with what was done
-- before. A handler is a closure of the render that made it, so it takes that render's state as
-- `seen`, and reads from it what the code reads from captured variables. Rows are objects that the
-- arrays of several renders share: the heap of a Listing holds the objects, an array of rows is a
-- list of indices into it, and writing a field of a row writes the heap. An endpoint of the server
-- is a function from what is asked to a reply, which rejects or resolves. What the language
-- provides on texts (parseInt, Number, trim, localeCompare, Date.parse, JSON, encodeURIComponent)
-- is a field of a record that the definitions take. `switch` on a text is a data type of the texts
-- that the component passes. Messages are the keys that are passed to the translation.
--
-- Amounts of the usage code are exact: a rate is a fraction, a cost that the code rounds to two
-- decimals is in cents, a percentage in hundredths, and Math.round is written out on fractions; what
-- binary floating point makes of a tie is not modelled. A Map is an association list in the order of
-- insertion. Dates come from a record of the calendar: for the usage code days are counted from
-- 1970-01-01, and the texts of a day are a field; for the forms the calendar gives the parts of a
-- local time, or none for an invalid date. toLowerCase, the order of sort() and localeCompare are parameters. A
-- configuration is a tree of values; a request for one comes to the configuration or to an error,
-- and JSON is a pair of functions, of which a theorem assumes that what was written is read again.
-- Seconds and timers pass as steps of the model.
--
-- Bounds. Numbers are whole: indices, ids and times are natural numbers, quotas, balances and
-- priorities integers without a bound, since the code computes with none near 2^53. Where the code
-- has a fraction, as in the seconds of Date.now() / 1000 or a balance, the number is counted in a
-- unit that makes it whole, which is named where it stands. A page number
-- is at least 1, as the pager counts. The loops are recursions on their lists, so no fuel is used.
--
-- Not modelled: the rendering of a row's cells but for the labels that are named above, the toasts
-- of the console and the router themselves, and the components
-- that have no file here: the rate limits, the health of channels, the settings, the registration,
-- and the pages of text; of the packages, the Vue components, the charts, the documentation of the
-- API, the tokens of the design and the engine of the brand.
pub mod Prelude
pub mod Effects
pub mod Paging
pub mod Sorting
pub mod Sums
pub mod Grouping
pub mod Listing
pub mod Channels
pub mod EditToken
pub mod Times
pub mod Tokens
pub mod Users
pub mod Redemptions
pub mod Logs
pub mod Dashboard
pub mod Usage
pub mod Brand
pub mod Toasts
pub mod Sessions
pub mod ChannelModels
pub mod EditChannel
