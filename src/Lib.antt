-- ===== src/Lib.antt =====
-- The web client of the workflow scheduler (src/web/js): what its pages keep and compute, as
-- functions on the state of each page. The client gets JSON from the web server (src/java), keeps
-- it in Backbone models, and changes the page with jQuery. A page's elements are modelled by what
-- the code reads and writes of them: the classes, texts and properties that a handler touches.
--
-- Prelude: numbers, lists, tests and association lists (`Dict`: `get` and `put` for a JavaScript
--   object; `Int`: integers; `Sort`: sorting by a test) that the parts share.
-- Texts: texts as lists of code units, with `trim`, `indexOf` and `substring`; Texts.Numbers is
--   numbers in texts and `parseInt`.
-- Dates: the text of a date (azkaban.date.utils.js).
-- Classes: class attributes as texts, and what `hasClass`, `addClass` and `removeClass`
--   (azkaban.job.status.utils.js) do to the words in them.
-- Flow: the graph of a flow's jobs. Flow.Graph holds the nodes; Flow.Fetch is `fetchFlow`
--   (azkaban.ajax.utils.js), which links them; Flow.Link is the links of the drawn graph
--   (azkaban.svg.graph.view.js); Flow.Disable is the context menu's actions and `showExecuteJob`
--   (azkaban.flow.execute.view.js), Flow.Disable.Options its `changeFlowInfo`; Flow.Scheduled is
--   the jobs that the scheduling dialog disables, Flow.ScheduledLinks its links; Flow.Menu is the
--   menus of the scheduling dialog and of the staging page (azkaban.schedule.options.view.js,
--   azkaban.staging.flow.view.js). A handler gives an Outcome: the state after it, or that it
--   raised a TypeError, or that the recursion was deeper than the stack. The fuel of `recurse_all`
--   is that depth; one more than the rank of the job in a graph without cycles is enough.
-- ContextMenu: the menu at the mouse (azkaban.context.menu.js): the elements that `setupMenu`
--   makes of a menu with submenus (ContextMenu.Setup), and ContextMenu.Hover, the handlers of the
--   mouse and the timers that show a submenu, as steps that come in any order.
-- Folding: rows that unfold to what is fetched for them, for any handlers that act as its record
--   of laws says; Projects and FlowTable.Expand fill that record.
-- Projects: the list of projects, whose rows unfold (azkaban.main.view.js). Animations are taken
--   to be over before the next event, here and in Params.Side.
-- FlowTable: the jobs of the flows of a project, with the marks of a job's neighbours
--   (azkaban.project.view.js); FlowTable.Expand is the unfolding of a flow.
-- Staging: the staging page of a flow (azkaban.staging.flow.view.js). Staging.Views is the list
--   of jobs and the drawing, two views of the selected and of the disabled jobs, with clicks and
--   the actions of Flow.Menu as events; Staging.Executions the tabs, the requests of executions
--   with their answers in any order, and the address of the page; Staging.Rows the rows of the
--   executions, Staging.Filter the filter of the list, and Staging.Drawing the lines and nodes
--   of the graph, whose coordinates are a parameter.
-- ProjectLog: the log of a project (azkaban.projectlog.view.js).
-- Params: the editable tables and what is sent of them (azkaban.flow.execute.view.js,
--   azkaban.jobedit.view.js). Params.Load is the loading of a flow's options
--   (azkaban.ajax.utils.js). Params.Side is the menu at the side of the dialog. Params.Cells is
--   the tables as elements: cells with a text or a text box, and the events of the three views
--   that edit them, Params.Cells.Dialog (azkaban.flow.execute.view.js), Params.Cells.Advanced
--   (azkaban.schedule.options.view.js) and Params.Cells.Job (azkaban.jobedit.view.js);
--   Params.Cells.Draft is what a user sees of such a table. A click runs the handlers from the
--   inside out, as jQuery documents it, and an element taken out of a cell has no parent.
-- Deadlines: the table of the deadlines of a schedule (azkaban.scheduled.view.js).
-- JobList: the filter, the selection and the marks of the list of jobs (azkaban.flow.job.view.js),
--   with texts as lists of code units.
-- Paging: the pages of a flow's executions (azkaban.flow.view.js). Its items may be missing, and
--   then a handler ends with a TypeError.
-- Schedule: the week view (azkaban.schedule.svg.js): the runs of a schedule (`process_item`), the
--   cutting of a run at midnight (`add_item`), the columns of a day (Schedule.Columns), texts
--   (Schedule.Text), and the address of a week (Schedule.Address), where the Date objects of the
--   browser are a parameter. Times are milliseconds; the local midnight is a parameter, with the
--   hypotheses of Schedule.Zone. Two rounds of the loop that catches up and one for each
--   millisecond for the loop that repeats are enough; so is the fuel that the theorem on
--   `add_item` asks for.
-- Duration: `getDuration` and `formatDuration` (azkaban.date.utils.js).
-- Execution: the page of an execution. Execution.Status is the classes, buttons and tabs
--   (azkaban.job.status.utils.js, azkaban.svg.graph.view.js, azkaban.exflow.view.js);
--   Execution.Poll the polling, with the page's events as steps; Execution.Update the merging of
--   an update; Execution.Rows the table of the jobs (`updateJobRow`) and Execution.Panel the
--   summary; Execution.Start what opening the page sets; Execution.Log the loading of logs
--   (azkaban.exflow.view.js, azkaban.joblog.view.js), where the server is a parameter that serves
--   parts of one file.
-- Navigate: dragging and zooming of a graph (svgNavigate.js), and the bounds of a drawn graph
--   (azkaban.svg.graph.view.js), whose coordinates are a parameter.
-- Permission: the dialog for permissions (azkaban.permission.view.js).
-- TableSort: tables whose headers sort their rows (azkaban.table.sort.js): the rows
--   (TableSort.Rows), which TableSort.Groups sees as groups of a row with its child rows, and the
--   marks of the headers (TableSort.Marks), and clicks in turn (TableSort.Clicks). Lower case is a parameter.
-- Layout: the layers of the graph with the dummy nodes of long edges (azkaban.layout.js).
-- Tests: the parts at examples.
--
-- How they interact: the nodes that Flow.Fetch links are those that Flow.Disable walks; the flags
-- of Flow.Disable are what Params sends as the disabled jobs; the status of an execution that
-- Execution.Update merges decides the buttons and the polling; Staging.Views marks the jobs by the
-- flags that Flow.Menu sets; Staging.Executions.Address reads the links of a pagination.
--
-- Not modelled: the drawing of pages, requests and their errors, floating-point
-- positions, the libraries (jQuery, Backbone, d3), and the server.
pub mod Prelude
pub mod Texts
pub mod Folding
pub mod Dates
pub mod Classes
pub mod ContextMenu
pub mod Projects
pub mod Flow
pub mod Params
pub mod Deadlines
pub mod FlowTable
pub mod Staging
pub mod ProjectLog
pub mod JobList
pub mod Paging
pub mod Schedule
pub mod Duration
pub mod Execution
pub mod Navigate
pub mod Permission
pub mod TableSort
pub mod Layout
pub mod Tests
