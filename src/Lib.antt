-- ===== src/Lib.antt =====
-- The pure core of Rakazo, a chat workspace of AI bots that run tools and computers for their user.
--
-- A run of a bot takes the statuses of packages/core/src/run-state.ts (RunState). It works on a screen
-- of a computer, which a lease of packages/core/src/screen-lease.ts (Screen/Lease) lets it take in the
-- registry of infra/sandboxes/supervisor/src/supervisor-logic.ts (Screen/Registry). What commands print
-- there comes back through demuxDockerStream of the same file (DockerStream), under a time limit of
-- packages/core/src/sandbox-command.ts (SandboxCommand). Later work is a background job with a key
-- (JobQueue/Jobs, packages/adapter-kit/src/background-jobs.ts) on a queue (JobQueue/Queue,
-- InMemoryJobQueue of packages/adapters/src/wakeup.ts), where an enqueue that replaces a job is two steps,
-- with any calls between them (JobQueue/Queue/Histories).
--
-- Events of a thread become messages in packages/core/src/events.ts: Live/Projection is
-- projectMessages, Live/Blocks is reduceLiveMessageBlocks, which it calls for each delta and tool call,
-- and Redaction is the redactor that output passes through before it is stored. Clients merge loaded
-- pages of messages (History, packages/core/src/message-pages.ts), send what the message box plans
-- (Composer, packages/core/src/composer-mentions.ts), with attachments (Attachments,
-- packages/core/src/attachments.ts), and show the bots in sections (Sidebar,
-- packages/core/src/bot-sections.ts) and the question that waits for an answer (AnswerableAsk,
-- packages/core/src/answerable-ask.ts). A message to a group wakes the bots of GroupTargets
-- (packages/core/src/group-mentions.ts); bots write to one another through BotMessages
-- (packages/core/src/bot-messages.ts).
--
-- Whether a tool call is asked about first is decided in packages/core/src/action-approval.ts
-- (Approval/Words for names of tools, Approval/Rules for the user's rules, Approval/Gate for the gate),
-- and Secrets is packages/core/src/secrets-guard.ts, where the credentials come from.
--
-- Effects is packages/adapters/src/approval-effect.ts, the row of an external effect and its conditional
-- updates; Effects/Replay is the queue of approved requests there; Effects/Dispatch is what applyTool of
-- packages/adapters/src/executor.ts does with the row before the tool runs, and Effects/Dispatch/Histories
-- interleaves the calls of several workers with the answers of packages/db/src/events.ts.
--
-- Reconciler is packages/adapters/src/job-reconciler.ts, which puts due work back on the queue: Lanes for
-- the pages of one table, Pass for reconcileOnce, Leadership for the lock that elects one process.
--
-- Control is packages/adapters/src/computer-control.ts: the lease under which a user controls a computer,
-- with the grant of apps/api/src/router.ts, the one for teaching of apps/api/src/taught-skills.ts, the end
-- of a boot in packages/adapters/src/computer-lifecycle.ts, and finalizeComputerControlRelease of
-- packages/db/src/events.ts; Control/Moves puts these writes in any order.
--
-- Idle is sleepComputerIfIdle of packages/adapters/src/computer-idle.ts, which stops a computer that no
-- run keeps awake.
--
-- Releases is the first part of packages/core/src/compose-update.ts: Tags for the tags of images, Versions
-- for the tags of releases and the newest of them.
--
-- Cron is packages/core/src/cron.ts: Fields for the pieces of an expression and of a time of day, Presets
-- for the form the user fills in and the expression it becomes, Next for when a routine runs next.
--
-- Names are the source's, in snake case. A text is the list of its UTF-16 code units, a Map an
-- association list in insertion order, a Set the list of its members. A function that changes an object
-- takes it and returns it; one that throws returns a Result. Numbers are naturals: indexes, fences,
-- sequence numbers and times, for which the source has no negative values either.
--
-- What the host decides is an argument of the definitions: case mapping, Number of a text, the encoding
-- of a text as bytes, JSON, the two tests by Unicode regular expressions (stripMentionToken,
-- hasMentionToken), the cron library, and the answers of the database and of the pool of connections. The
-- theorems hold for all of them.
--
-- The loops over a buffer (drain in Redaction, the two in DockerStream) run on fuel: one more than the
-- length of the buffer, or its length. Each round takes at least one unit off, so the fuel is enough,
-- and the theorems about them say what comes out, never that it comes out if it does.
--
-- Not modelled: the servers, clients and database, which are calls of other programs (a transaction or
-- an updateMany is one step, a findMany an argument); the call that ends because another one creates the
-- row of its effect between the query and the insertion of recordEffect, which are one step here; and
-- self-update, the plan of a compose update and skills, which are pure and can be added.
pub mod Common
pub mod RunState
pub mod Screen
pub mod Redaction
pub mod Live
pub mod Approval
pub mod DockerStream
pub mod JobQueue
pub mod BotMessages
pub mod Secrets
pub mod Composer
pub mod Sidebar
pub mod GroupTargets
pub mod Attachments
pub mod SandboxCommand
pub mod AnswerableAsk
pub mod History
pub mod Effects
pub mod Reconciler
pub mod Cron
pub mod Control
pub mod Releases
pub mod Idle
