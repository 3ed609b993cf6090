-- ===== src/Lib.antt =====
-- DriveLab: a tool that inspects, tests and erases drives, whose job manager locks each drive
-- for the job that works on it and checks the drive before it starts one.
--
-- The repository holds three published snapshots; these files model the newest, 0.3.0, and its
-- paths below start at 0.3.0/source/src.
--
-- Result models core/result.h. Drive models core/drive.h and core/drive.cpp: DriveIdentity::driveId
-- is drive_id, lockKey is lock_key, samePhysicalDevice is same_physical_device, Drive::isProtected
-- is is_protected. Texts are lists of bytes, and white space and letter case are those of the C
-- locale. Mode models core/execution_mode.h, and Operation models core/operation.h and
-- core/operation.cpp. Safety models safety/safety_policy.cpp: SafetyPolicy::authorize is authorize.
-- Logging models the records of logging/logger.h and the logger that keeps them.
--
-- Jobs models jobs/job_manager.cpp. JobManager is the state: the vector of jobs, the map of locks as
-- an association list, the counter of ids (64 bits, with its wrap-around) and the log. Jobs.Launch
-- has the private helpers (start, startEligibleJobs, releaseLock, fail, log) and Jobs.Manager the
-- public operations (submit, updateProgress, complete, markFailed, pause, resume, cancel,
-- activeDriveCount, canTerminate). The clock and the inventory provider are outside the manager: a
-- World says what each answers at the n-th call that the manager makes, without any condition. A
-- call of the manager takes the world and the manager and returns the manager after it and the
-- result. Jobs.Runs has the calls as data, and the manager after a list of them.
--
-- The while loop of startEligibleJobs runs on fuel, one more than the number of jobs: each round
-- takes one job out of the queue and none is put in.
--
-- Jobs.Moves has the abstract view: a board of jobs, locks and the next id, on which an operation is
-- a sequence of five kinds of moves. Jobs.Sound and Jobs.Submit relate the operations to the moves,
-- Jobs.Lockstep and Jobs.History are about moves, Jobs.Runs and Jobs.Promises about sequences of
-- calls.
--
-- Inventory models the data of core/block_inventory.h and core/resolved_inventory.h, and Ownership
-- core/ownership_graph.cpp: assessOwnership is assess_ownership. Its maps and sets keyed by strings
-- are lists in key order (Prelude.Maps), and a sort by std::tie compares lists of texts that hold
-- the components of the tie, a number being a text of one element. Ownership.Graph builds
-- nodes, edges and physical endpoints, Ownership.Trace walks from each node to the devices that back
-- it, Ownership.Usage collects the claims and marks the devices that they reach, and
-- Ownership.Classify classifies one
-- device and Ownership.Assess all of them. The walk is recursion on the levels left of the source's own limit:
-- walk g 257 is depth 0, and depth 257 is given up as a cycle. Cancellation of a scan and its timing
-- are left out: they do not change a result that is returned.
--
-- Resolve models core/resolved_inventory.cpp: hexIdentifier, trustworthyText and the fingerprint,
-- validPath and resolveCurrentPath, and Resolve.Identify models identify, which returns the issues
-- and the identity that the source writes into the node. Resolve.Collide models
-- resolveBlockIdentities, where nodes with equal sort keys keep their order (the source's sort leaves
-- it open). Capability models core/capability.cpp, and Options
-- app/launch_options.cpp and config/app_config.cpp.
--
-- Providers models providers/provider_interfaces.h and providers/mock_providers.cpp: the plan methods
-- are a record of functions, Planners, which mock_planners fills, and the mock inventory is a list of
-- drives.
--
-- Demo models core/demo_model.h and core/demo_model.cpp, and its children app/demo_session.cpp:
-- Demo.State the state and what sets it up, Demo.Session and Demo.Workflows the operations that a user
-- asks for, Demo.Clock the ticks. A session holds its job manager and calls the manager's operations of
-- Jobs.Manager; a DemoWorld says what the inventory's scans and the clock answer the session, beside the
-- manager's own World. Demo.Calls has the operations as data and one step for each. The while loop of
-- advance runs on fuel, one more than the milliseconds that wait: each round takes 500 of them.
--
-- Application models the mock side of app/core_application.cpp: Application the factories and the
-- constructor, Application.Commands the operations, Application.Cli app/core_cli.cpp. The job manager of
-- an application with a demo session is the session's: both work on one object. Process models
-- process/disabled_process_runner.cpp, and Report report/report_writer.cpp.
--
-- Linux models platform/linux/linux_host_parsers.cpp and platform/linux/linux_host_usage.cpp: Linux.Words
-- the reading of a line, Linux.Mounts, Linux.Swaps and Linux.Signature the three parsers, Linux.Usage
-- with Relate and Scan the provider. What the host answers is a parameter, the record Host; the answers
-- to inspect and to the signature source depend on the number of the call. The snapshot that a loop
-- changes is passed on from step to step, and a reference to a node is its place in the list.
--
-- Terminal models makeLayout of ui/tui_layout.h for the window size that ncurses gives, and
-- Terminal.Selection the selection of ui/production_read_model.cpp; whether two snapshots are one object
-- is an argument there. Terminal.Demo models ui/demo_read_model.cpp.
--
-- Production models app/production_snapshot.h and app/production_application.cpp. Production.Worker has
-- the thread of a scan as a state and one function for its steps; between two steps anything else may
-- happen. Production.Control has what the thread and its callers share, the operations, and Event, the
-- steps of both; a history is any list of events. What the inventory source and the clock answer, and
-- what they throw, comes with each step. A step joins what no other thread can tell apart: it asks once
-- whether the scan is cancelled, when the source may ask several times in a row. To publish is a step
-- of its own, so that a request to stop may come between the last check and it. A join is a step that
-- does nothing while the thread runs, and a call that waits for the control mutex does nothing while
-- another call holds it. For bool production_running_ to be false again is the end of the thread.
--
-- Not modelled: printing, the drawing of the terminal interface, the acquisition of host state from procfs, sysfs,
-- udev and libblkid, the ownership sources, the POSIX process runner and the earlier snapshots.
pub mod Prelude
pub mod Result
pub mod Drive
pub mod Mode
pub mod Operation
pub mod Safety
pub mod Logging
pub mod Jobs
pub mod Inventory
pub mod Ownership
pub mod Resolve
pub mod Capability
pub mod Options
pub mod Providers
pub mod Demo
pub mod Process
pub mod Report
pub mod Application
pub mod Linux
pub mod Production
pub mod Terminal
mod Tests
