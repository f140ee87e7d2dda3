-- ===== src/Lib.antt =====
-- web-gobbler: a scraping service of an API process, a job table in PostgreSQL, a queue in Redis
-- and a pool of workers that scrape a page, crawl a host or map its URLs.
--
-- The way of a job: internal/api checks a request, creates a row of the table and queues a message;
-- a worker (cmd/worker/main.go) takes the message, claims the row, runs the scrape, crawl or map of
-- internal/crawl and internal/scraper, and writes the outcome into the row.
--
-- The files:
--   Prelude      Boolean tests, lists over the native numbers, Go's int, strings.
--   Scraper      internal/scraper: the records, errors and defaults that the others exchange, and
--                net/url as the parameter `Net`. Addresses: isPrivateIP, resolveAndCheckURL and
--                the check of redirects; Private and Redirects are about them. Markdown:
--                htmlToMarkdown (markdown.go), with Shapes and Rendered about it; Fetch: the
--                fetchers (fetcher.go), with Fetched about them; Page: ScrapePage, with Pages
--                about it; Sessions: NewBrowserFetcher and the slots of the browser's calls.
--   Crawl        internal/crawl/crawl.go. Frontier: the options, URL normalisation, guards and
--                the loop; Pages: CrawlBFS (`crawl_bfs`); Urls: MapBFS (`map_bfs`). Reach
--                describes the URLs in reach of a seed without the queue; Loop is the rule for
--                invariants of the loops; the children of Pages and Urls are the invariants and
--                what follows; Safety puts CrawlBFS on top of ScrapePage.
--   Store        internal/store. Table: the rows and the forms of SQL; Jobs: CreateJob
--                (`create_job`), GetJob, ClaimJob, UpdateJob, CancelJob; Types: the records and
--                json.go; Listing: ListJobs; Connect: New. Laws, Connecting, Reads, Paging,
--                History and Kept are about one operation, a write and a read, the pages of a
--                list (ordered as Sorted says), and any sequence of calls.
--   Queue        internal/queue/queue.go: the message. Redis: Enqueue, Dequeue, QueueDepth and
--                Ping on a Redis list (`Redis`); Refines: the sequence of messages that they
--                implement.
--   Worker       cmd/worker/main.go. Retry: applyJobOptions, executeWithRetry; Process:
--                processJob and handleJobResult. Laws, Outcome, Jobs and Interrupted are about
--                them. Lifecycle: main, Run, work and Stop as a step relation, with Shutdown and
--                Ending about it; Publish: startMetricPublisher.
--   Api          internal/api. Types, Validator (validator.go), Backend (the interfaces of store
--                and queue), Convert, Handlers and Listing (handlers.go). Valid, Limits, Answers
--                and Shown are about them.
--   Extract      internal/extract/extract.go: FromEnv and Client.Extract on a log of the
--                requests; Laws is about it. Api/Extraction is HandleExtract, with its page loop
--                in Api/PageExtracts and its answers in Api/ExtractCases and Api/Extracting.
--   Limits       perDomainRateLimiter (cmd/worker/main.go) and RateLimitMiddleware with its
--                limiters (internal/api/middleware.go); Apart is about them.
--   System       the API and the workers on one table and one queue, as a step relation (`Step`).
--                Runners, Calm, Messages and Waiting are about its runs, Progress about sequences
--                of steps; Backend fills the handlers' interfaces with Store and Queue, EndToEnd
--                follows one request to its result, and Serving, Requests and Working take the
--                handlers, the API process and processJob apart into steps. Traffic is about
--                requests alone, and Drained about a worker alone (Rounds).
--   Server       cmd/api/main.go, RegisterRoutes and the middlewares: the routes and the chain of
--                a request (`serve`); Answers is about it.
--   Boot         the start of both processes: getEnv and its kin, setupLogger, queue.New and the
--                calls up to it (`start_up`); Settings: what the mains read; Connected is about
--                the start.
--   The Examples modules run the definitions on small inputs and apply the theorems to them.
--
-- State. A loop's state is a record, its step a function to the next state or an exit. The table is
-- a list of rows with a script of the statements that fail. Time, new identifiers, the context, the
-- rate limiter, the cancel check and each answer of ScrapePage are arguments, numbered by the round
-- or attempt where they may change. A Go pointer or error that may be nil is an Option or a sum; a
-- nil pointer that is read is an outcome of its own (`panicked`).
--
-- Fuel. The crawl has one round more than its page limit, the map one more than its URL limit: a
-- round of the first adds a page, a round of the second takes one of the URLs that were queued, of
-- which there are no more than the limit.
--
-- The ping loop of New has 122 rounds: a round that goes on takes half a second, and the loop ends
-- at a minute.
--
-- Texts are whole characters: `s[:n]` leaves out a character that the cut goes through, where Go
-- keeps its first bytes (`cut`).
--
-- Parameters: net/url and strings.EqualFold (Net), net.LookupIP (Resolver), encoding/json with
-- JSONB (Codec, PayloadCodec, with IsFaithful for what is written being read back),
-- github.com/google/uuid, strings.ToLower, TrimSpace, Fields and %q, strconv.Atoi, net/http and
-- chromedp (Web), goquery (Goquery), a language model over HTTP (Llm), golang.org/x/time/rate
-- (Rate), gin, promhttp and http.MaxBytesReader (Parts), pgxpool (Server), go-redis (RedisServer),
-- and the order that ORDER BY gives to rows.
--
-- Not modelled: what net/http, the browser and the HTML library do (parameters `Web` and
-- `Goquery`), the server and router of the API (gin's choice of a route is `find` of Parts) with
-- its shutdown and gin.Recovery, which answers a panic alone, the lines that the worker logs, and
-- Prometheus's collectors. A statement of the store that fails changes nothing. A purge of the
-- limiters comes between requests, not between a request's look into the map and its use of the
-- limiter.
pub mod Prelude
pub mod Scraper
pub mod Crawl
pub mod Store
pub mod Queue
pub mod Worker
pub mod Api
pub mod System
pub mod Extract
pub mod Limits
pub mod Server
pub mod Boot
